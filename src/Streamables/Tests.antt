-- ===== src/Streamables/Tests.antt =====
-- Two streamables, and the operations on them.
use graffi_tab_backend.Prelude.{ℕ, ◌≡◌, refl, true, none, List, [], ◌∷◌, IsKeyed, arith}
use graffi_tab_backend.Prelude.Text.{codes}
use graffi_tab_backend.Errors.{ok, wrapped}
use graffi_tab_backend.Model.Content.{Streamable}
use graffi_tab_backend.Backend.{Backend}
use graffi_tab_backend.Backend.Lookup.{current_id}
use graffi_tab_backend.Samples.{start, as_ann, client}
use graffi_tab_backend.Streamables.{StreamableForm, validate_text, new_streamable}
use graffi_tab_backend.Streamables.Owner.{edit_streamable_graffiti, delete_streamable}
use graffi_tab_backend.Streamables.Owner.Refusals.{
  Outcome, after_edit, edit_streamable_graffiti-Outcome,
}
use graffi_tab_backend.Streamables.Reactions.{like}
use graffi_tab_backend.Streamables.Stats.{process_streamable_stats}
use graffi_tab_backend.Streamables.Stats.Counts.{like-process_streamable_stats}
use graffi_tab_backend.Streamables.Visibility.Hidden.{IsHidden, deleted-IsHidden}

abbrev form : StreamableForm
form = record {
  text = none;
  is_private = none;
  latitude = none;
  longitude = none;
  roll = none;
  yaw = none;
  pitch = none;
}

-- Ann's and Bob's.
abbrev posts : List (ℕ × Streamable)
posts =
    (10, new_streamable form (codes "a") 1 100) ∷ (11, new_streamable form (codes "b") 2 200) ∷ []

abbrev posted : Backend
posted = record start {
  db = record (start.db) { streamables = record { rows = posts; next = 12 } };
}

posts-IsKeyed : IsKeyed posts
posts-IsKeyed = ground arith

edit_streamable_graffiti-Outcome_example :
    Outcome as_ann 10 wrapped 10 posted
      (after_edit as_ann 10 form (codes "c") posted)
      (edit_streamable_graffiti as_ann 10 form (codes "c") posted)
unfolding validate_text
edit_streamable_graffiti-Outcome_example =
    edit_streamable_graffiti-Outcome as_ann 10 form (codes "c") posted refl

deleted-IsHidden_example : IsHidden 1 10 (delete_streamable as_ann 10 posted).1.db
unfolding delete_streamable current_id
deleted-IsHidden_example =
    deleted-IsHidden as_ann 1 10 posted (delete_streamable as_ann 10 posted).1 posts-IsKeyed refl

like-process_streamable_stats_example :
    (process_streamable_stats as_ann 11 (like as_ann client 11 posted).1).0
    ≡ ok (record { comments_count = 0; likers_count = 1; liked_by_current_user = true })
unfolding current_id
like-process_streamable_stats_example =
    like-process_streamable_stats as_ann client 1 11 posted refl (λ e. cc) refl
