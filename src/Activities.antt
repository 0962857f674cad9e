-- ===== src/Activities.antt =====
-- service/ActivityService.java: the activity that a job adds, and the lists, with the named
-- queries of persistence/model/activity/Activity.java.
pub mod Feed
pub mod Reach
mod Tests
use graffi_tab_backend.Prelude.{
  ℕ, ◌+◌, ◌++◌, Bool, true, false, not, ◌&&◌, ◌||◌, Option, none, some, List, [], ◌∷◌, ◌==◌, find,
  select, map,
}
use graffi_tab_backend.Prelude.Sorting.{order_by}
use graffi_tab_backend.Prelude.Text.{Text}
use graffi_tab_backend.Model.{Database}
use graffi_tab_backend.Model.Content.{Streamable, Activity, ActivityKind}
use graffi_tab_backend.Model.Content
use graffi_tab_backend.Backend.{Action, pure, gets, modify, ◌>>=◌, ◌>>◌}
use graffi_tab_backend.Backend.Transactions.{in_transaction}
use graffi_tab_backend.Backend.Lookup.{find_user_by_id, deref, Request, get_current_user}
use graffi_tab_backend.Paging.{PagedList, get_items}
use graffi_tab_backend.Paging.Grouping.{ActivityContainer, get_grouped_items}
use graffi_tab_backend.Users.Following.Graph.{follows}

abbrev pub new_activity : ℕ → ActivityKind → ℕ → Option Text → Option Text → Activity
new_activity user kind now ip_address user_agent = record {
  user = user;
  kind = kind;
  created_on = now;
  ip_address = ip_address;
  user_agent = user_agent;
}

-- `inner.getActivity().add(activity)`
abbrev pub persist_activity : Activity → Database → Database
persist_activity a d = record d {
  activities = record {
    rows = d.activities.rows ++ (d.activities.next, a) ∷ [];
    next = d.activities.next + 1;
  };
}

-- The runnable of `addUserActivityToFollowersAsync`.
unfoldable pub add_user_activity :
    ℕ → ActivityKind → ℕ → Option Text → Option Text → Action (Unit {0})
unfolding in_transaction
add_user_activity user kind now ip_address user_agent = in_transaction do
  inner ← find_user_by_id user
  deref inner
  modify (persist_activity (new_activity user kind now ip_address user_agent))

-- `left join a.createdStreamable s`
abbrev pub created_streamable : Database → Activity → Option (ℕ × Streamable)
created_streamable d a = elim a.kind [
  | Content.create_streamable id ↦ elim (find id d.streamables.rows) [
    | none ↦ none
    | some v ↦ some (id, v)
  ]
  | _ ↦ none
]

-- The condition of `Activity.getUserFeed`
abbrev pub in_feed : ℕ → Database → Activity → Bool
in_feed current d a =
    (follows current a.user d || a.user == current) && elim (created_streamable d a) [
      | none ↦ false
      | some (id, v) ↦ not v.is_deleted && (not v.is_private || a.user == current)
    ]

-- `select s`: the streamables of the activities.
abbrev pub created_streamables : Database → List (ℕ × Activity) → List (ℕ × Streamable)
created_streamables d [] = []
created_streamables d ((j, a) ∷ t) = elim (created_streamable d a) [
  | none ↦ created_streamables d t
  | some x ↦ x ∷ created_streamables d t
]

-- `Activity.getUserFeed`
abbrev pub user_feed : ℕ → Database → List (ℕ × Streamable)
user_feed current d =
    created_streamables d
      (order_by (λ a. a.created_on) (select (λ _. in_feed current d) d.activities.rows))

-- The condition of `Activity.getFollowersActivity`
abbrev pub is_followers : ℕ → Database → Activity → Bool
is_followers current d a = follows current a.user d && elim (created_streamable d a) [
  | none ↦ true
  | some (id, v) ↦ not v.is_deleted && not v.is_private
]

-- `Activity.getFollowersActivity`
abbrev pub followers_activity : ℕ → Database → List (ℕ × Activity)
followers_activity current d =
    order_by (λ a. a.created_on) (select (λ _. is_followers current d) d.activities.rows)

-- `getUserFeedResult`, for Hibernate's pages
unfoldable pub get_user_feed :
    (ℕ → ℕ → List (ℕ × Streamable) → List (ℕ × Streamable))
    → Request
    → Option ℕ
    → Option ℕ
    → Action (PagedList (ℕ × Streamable))
unfolding in_transaction
get_user_feed query_list r offset limit = in_transaction do
  current ← get_current_user r
  rows ← gets (user_feed current)
  pure (get_items query_list rows offset limit)

-- `getFollowersActivityResult`
unfoldable pub get_followers_activity :
    (ℕ → ℕ → List Activity → List Activity)
    → Request
    → Option ℕ
    → Option ℕ
    → Option ℕ
    → Action (List ActivityContainer)
unfolding in_transaction get_grouped_items
get_followers_activity query_list r number offset limit = in_transaction do
  current ← get_current_user r
  rows ← gets (followers_activity current)
  pure (get_grouped_items query_list (map (λ x. x.1) rows) number offset limit)

-- `removeAll`
unfoldable pub remove_all : Action (Unit {0})
unfolding in_transaction
remove_all =
    in_transaction (modify (λ d. record d { activities = record (d.activities) { rows = [] } }))
