-- ===== src/Activities/Tests.antt =====
-- Bob posts and likes; Ann follows him.
use graffi_tab_backend.Prelude.{
  ◌≡◌, refl, false, not, ◌&&◌, ◌||◌, some, none, [], ◌∷◌, ◌==◌, any, true,
}
use graffi_tab_backend.Prelude.Text.{codes}
use graffi_tab_backend.Prelude.Sorting.{listed}
use graffi_tab_backend.Model.Content.{Activity}
use graffi_tab_backend.Model.Content
use graffi_tab_backend.Backend.{Backend}
use graffi_tab_backend.Backend.Lookup.{Request, current_id}
use graffi_tab_backend.Samples.{start, as_ann, client}
use graffi_tab_backend.Users.Following.Graph.{follows}
use graffi_tab_backend.Streamables.{
  StreamableForm, create_streamable_in_transaction, new_streamable,
}
use graffi_tab_backend.Streamables.Owner.{delete_streamable}
use graffi_tab_backend.Jobs.{run_jobs}
use graffi_tab_backend.Activities.{user_feed, followers_activity}
use graffi_tab_backend.Activities.Feed.{creates, deleted_leaves_feeds}
use graffi_tab_backend.Activities.Reach.{create_reaches_feeds}

abbrev form : StreamableForm
form = record {
  text = none;
  is_private = none;
  latitude = none;
  longitude = none;
  roll = none;
  yaw = none;
  pitch = none;
}

abbrev as_bob : Request
as_bob = record as_ann { principal = some 2 }

abbrev posted : Backend
posted = (create_streamable_in_transaction as_bob client form (codes "g") start).1

create_reaches_feeds_example : listed 1 (user_feed 1 (run_jobs posted.jobs posted).db) ≡ (
    (follows 1 2 start.db || 2 == 1)
    && (elim form.is_private [ none ↦ true | some p ↦ not p ] || 2 == 1))
unfolding create_streamable_in_transaction current_id
create_reaches_feeds_example =
    create_reaches_feeds as_bob client form (codes "g") 2 1 1 start posted refl refl tt refl refl

-- Ann's streamable, which Bob likes.
abbrev like_of_bob : Activity
like_of_bob = record {
  user = 2;
  kind = Content.ActivityKind.like 10;
  created_on = 50;
  ip_address = none;
  user_agent = none;
}

abbrev liked : Backend
liked = record start {
  db = record (start.db) {
    streamables = record { rows = (10, new_streamable form (codes "a") 1 40) ∷ []; next = 11 };
    activities = record { rows = (5, like_of_bob) ∷ []; next = 6 };
  };
}

deleted_leaves_feeds_example :
    (listed 10 (user_feed 1 (delete_streamable as_ann 10 liked).1.db) ≡ false)
    × (any
          (λ x. creates 10 (delete_streamable as_ann 10 liked).1.db x.1)
          (followers_activity 1 (delete_streamable as_ann 10 liked).1.db)
        ≡ false)
unfolding delete_streamable current_id
deleted_leaves_feeds_example =
    deleted_leaves_feeds as_ann 1 10 liked (delete_streamable as_ann 10 liked).1 refl
