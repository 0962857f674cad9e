-- ===== src/Paging/Grouping.antt =====
-- service/paging/ActivityPagingService.java: runs of activities of one kind, by one user.
pub mod Groups
use graffi_tab_backend.Prelude.{
  ℕ, ◌+◌, ◌^◌, Bool, true, false, not, ◌&&◌, Option, none, some, List, [], ◌∷◌, ◌++◌, ◌==◌, ltb,
  length, if◌then◌else◌,
}
use graffi_tab_backend.Model.Content.{Activity, ActivityKind}
use graffi_tab_backend.Model.Content
use graffi_tab_backend.Paging.{abs, greater, get_items}

pub data ActivityType : Type 0 where
  comment create_streamable follow like : ActivityType

abbrev pub type_of : ActivityKind → ActivityType
type_of (Content.create_streamable s) = create_streamable
type_of (Content.ActivityKind.follow u) = follow
type_of (Content.ActivityKind.like s) = like
type_of (Content.ActivityKind.comment s c) = comment

abbrev pub same_type : ActivityType → ActivityType → Bool
same_type comment comment = true
same_type create_streamable create_streamable = true
same_type follow follow = true
same_type like like = true
same_type _ _ = false

-- `isSameTypeOfActivity`
abbrev pub is_same_type_of_activity : Activity → Activity → Bool
is_same_type_of_activity a b = same_type (type_of a.kind) (type_of b.kind) && a.user == b.user

-- Whether the two are about the same streamable or user.
abbrev pub same_item : ActivityKind → ActivityKind → Bool
same_item (Content.create_streamable s) (Content.create_streamable t) = s == t
same_item (Content.ActivityKind.follow u) (Content.ActivityKind.follow v) = u == v
same_item (Content.ActivityKind.like s) (Content.ActivityKind.like t) = s == t
same_item (Content.ActivityKind.comment s c) (Content.ActivityKind.comment t d) = s == t
same_item _ _ = false

-- `isSameActivity`, which the loop asks only of activities of one type.
abbrev pub is_same_activity : Activity → Activity → Bool
is_same_activity a b = is_same_type_of_activity a b && same_item a.kind b.kind

pub record ActivityContainer : Type 0 where
  pub activity_type : ActivityType
  pub user : ℕ
  pub created_on : ℕ
  pub activities : List Activity

-- A new container with its first activity.
abbrev pub container_of : Activity → ActivityContainer
container_of a = record {
  activity_type = type_of a.kind;
  user = a.user;
  created_on = a.created_on;
  activities = a ∷ [];
}

abbrev pub add_activity : Activity → ActivityContainer → ActivityContainer
add_activity a c = record c { activities = c.activities ++ a ∷ [] }

-- `size < numberOfItemsInGroup` on integers, a size being not negative.
abbrev pub fits : ℕ → ℕ → Bool
fits size n = ltb n (2 ^ 31) && ltb size n

-- The loop of `groupActivities`: the previous activity, the container that is open, and the
-- activities to come. The result is the containers from the open one on.
pub group_rest : ℕ → Activity → ActivityContainer → List Activity → List ActivityContainer
group_rest n previous c [] = c ∷ []
group_rest n previous c (a ∷ later) =
    elim (is_same_type_of_activity a previous && fits (length c.activities) n) [
      | true ↦
          group_rest n a (if not (is_same_activity a previous) then add_activity a c else c) later
      | false ↦ c ∷ group_rest n a (container_of a) later
    ]

-- `groupActivities`
unfoldable pub group_activities : List Activity → ℕ → List ActivityContainer
unfolding group_rest
group_activities [] n = []
group_activities (a ∷ later) n = group_rest n a (container_of a) (a ∷ later)

abbrev or_default : Option ℕ → ℕ
or_default none = 5
or_default (some w) = abs w

abbrev capped : ℕ → ℕ
capped n = if greater n 20 then 20 else n

-- `getPagedItems` of the activities, before they become DTOs.
unfoldable pub get_grouped_items :
    (ℕ → ℕ → List Activity → List Activity)
    → List Activity
    → Option ℕ
    → Option ℕ
    → Option ℕ
    → List ActivityContainer
unfolding get_items group_activities
get_grouped_items query_list rows number offset limit =
    group_activities (get_items query_list rows offset limit).items (capped (or_default number))
