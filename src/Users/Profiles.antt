-- ===== src/Users/Profiles.antt =====
-- The lists and the numbers of a profile in service/user/UserService.java, with the named queries
-- of persistence/model/user/User.java, and the likers of StreamableService.
pub mod Relations
pub mod Active
use graffi_tab_backend.Prelude.{
  ℕ, Bool, true, false, not, ◌&&◌, Option, none, some, List, [], ◌∷◌, ◌==◌, is_some, contains, find,
  filter, length, select,
}
use graffi_tab_backend.Prelude.Sorting.{order_by}
use graffi_tab_backend.Errors.{user_not_found, streamable_not_found, rest, null_pointer}
use graffi_tab_backend.Model.{Database}
use graffi_tab_backend.Model.Account.{User, status_eq, pending_activation}
use graffi_tab_backend.Backend.{Action, pure, gets, or_throw, of_result, ◌>>=◌, ◌>>◌}
use graffi_tab_backend.Backend.Transactions.{in_transaction}
use graffi_tab_backend.Backend.Lookup.{find_user_by_id, unique_result, Request, get_current_user}
use graffi_tab_backend.Paging.{PagedList, get_items}
use graffi_tab_backend.Streamables.{existing_streamable}

-- `u.accountStatus != 'PENDING_ACTIVATION'`
abbrev pub is_activated : User → Bool
is_activated u = not (status_eq u.account_status pending_activation)

-- The rows of a list of ids, in its order.
abbrev pub rows_of : List ℕ → List (ℕ × User) → List (ℕ × User)
rows_of [] t = []
rows_of (id ∷ ids) t = elim (find id t) [ none ↦ rows_of ids t | some u ↦ (id, u) ∷ rows_of ids t ]

-- `User.getFollowers`
abbrev pub get_followers : ℕ → Database → List (ℕ × User)
get_followers user d = elim (find user d.users.rows) [
  | none ↦ []
  | some u ↦ elim (is_activated u) [
    | true ↦ select (λ _ f. contains user f.following) d.users.rows
    | false ↦ []
  ]
]

-- `User.getFollowing`
abbrev pub get_following : ℕ → Database → List (ℕ × User)
get_following user d = elim (find user d.users.rows) [
  | none ↦ []
  | some u ↦ elim (is_activated u) [ true ↦ rows_of u.following d.users.rows | false ↦ [] ]
]

abbrev followers_or_following : Bool → ℕ → Database → List (ℕ × User)
followers_or_following true = get_followers
followers_or_following false = get_following

-- The user whose profile it is: the current one where the request names none.
abbrev profile_id : Request → Option ℕ → Action ℕ
profile_id r none = get_current_user r
profile_id r (some id) = do
  found ← find_user_by_id id
  or_throw found (rest user_not_found)
  pure id

-- `User.findWhoToFollow`
abbrev pub who_to_follow : ℕ → Database → List (ℕ × User)
who_to_follow current d =
    order_by (λ u. u.recommendation_rank)
      (select
        (λ j u.
          u.is_recommendation
          && is_activated u
          && not (j == current)
          && not
              (elim (find current d.users.rows) [ none ↦ false | some c ↦ contains j c.following ]))
        d.users.rows)

-- `count(s)` of the left join, for each user.
abbrev with_counts : Database → List (ℕ × User) → List (ℕ × (User × ℕ))
with_counts d [] = []
with_counts d ((id, u) ∷ t) =
    (id, (u, length (select (λ _ v. v.user == id) d.streamables.rows))) ∷ with_counts d t

abbrev without_counts : List (ℕ × (User × ℕ)) → List (ℕ × User)
without_counts [] = []
without_counts ((id, (u, n)) ∷ t) = (id, u) ∷ without_counts t

-- `User.getMostActiveUsers`
abbrev pub most_active_users : Database → List (ℕ × User)
most_active_users d =
    without_counts
      (order_by (λ p. p.1) (with_counts d (select (λ _ u. is_activated u) d.users.rows)))

-- `User.getLikers`
abbrev pub likers_of : List ℕ → Database → List (ℕ × User)
likers_of likers d = filter (λ x. is_activated x.1) (rows_of likers d.users.rows)

module _ (query_list : ℕ → ℕ → List (ℕ × User) → List (ℕ × User)) where
  -- `getFollowingOrFollowersForUserResult`
  unfoldable pub get_following_or_followers :
      Request → Bool → Option ℕ → Option ℕ → Option ℕ → Action (PagedList (ℕ × User))
  unfolding in_transaction
  get_following_or_followers r should_get_followers user_id offset limit = in_transaction do
    user ← profile_id r user_id
    rows ← gets (followers_or_following should_get_followers user)
    pure (get_items query_list rows offset limit)

  -- `findRecommendedUsersToFollow`
  unfoldable pub find_recommended_users_to_follow :
      Request → Option ℕ → Option ℕ → Action (PagedList (ℕ × User))
  unfolding in_transaction
  find_recommended_users_to_follow r offset limit = in_transaction do
    current ← get_current_user r
    rows ← gets (who_to_follow current)
    pure (get_items query_list rows offset limit)

  -- `getMostActiveUsersResult`
  unfoldable pub get_most_active_users : Option ℕ → Option ℕ → Action (PagedList (ℕ × User))
  unfolding in_transaction
  get_most_active_users offset limit =
      in_transaction do rows ← gets most_active_users; pure (get_items query_list rows offset limit)

  -- `getLikersResult`
  unfoldable pub get_likers : ℕ → Option ℕ → Option ℕ → Action (PagedList (ℕ × User))
  unfolding in_transaction
  get_likers id offset limit = in_transaction do
    streamable ← existing_streamable id
    rows ← gets (likers_of streamable.likers)
    pure (get_items query_list rows offset limit)

-- `processFollowedByCurrentUser`: the query finds a row for each time that the list has the user.
unfoldable pub is_followed_by_current_user : Request → ℕ → Action Bool
unfolding in_transaction
is_followed_by_current_user r other = in_transaction do
  current ← get_current_user r
  found ← find_user_by_id current
  row ←
      of_result
        (unique_result (elim found [ none ↦ [] | some u ↦ filter (λ id. id == other) u.following ]))
  pure (is_some row)

pub record UserStats : Type 0 where
  pub streamables_count : ℕ
  pub followers_count : ℕ
  pub following_count : ℕ

-- `processStats`
unfoldable pub process_stats : ℕ → Action UserStats
unfolding in_transaction
process_stats user = in_transaction do
  found ← find_user_by_id user
  u ← or_throw found null_pointer
  gets λ d. record {
    streamables_count =
        length (select (λ _ v. v.user == user && not v.is_deleted) d.streamables.rows);
    followers_count = length (select (λ _ f. contains user f.following) d.users.rows);
    following_count = length u.following;
  }
