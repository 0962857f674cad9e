-- ===== src/Streamables/Visibility.antt =====
-- The named queries of persistence/model/streamable/Streamable.java, and the operations of
-- StreamableService that page through them. Rows that a query does not order keep the order of
-- the table.
pub mod Hidden
use graffi_tab_backend.Prelude.{
  ℕ, Bool, not, ◌&&◌, ◌||◌, Option, List, ◌==◌, length, contains, select, find,
}
use graffi_tab_backend.Prelude.Sorting.{order_by}
use graffi_tab_backend.Errors.{user_not_found, rest}
use graffi_tab_backend.Model.{Database}
use graffi_tab_backend.Model.Content.{Streamable}
use graffi_tab_backend.Backend.{Action, pure, gets, or_throw, ◌>>=◌, ◌>>◌}
use graffi_tab_backend.Backend.Transactions.{in_transaction}
use graffi_tab_backend.Backend.Lookup.{find_user_by_id, Request, get_current_user}
use graffi_tab_backend.Paging.{PagedList, get_items}

-- `s.isDeleted = 'N' and (s.isPrivate = 'N' or s.user = :currentUser)`
abbrev pub is_visible : ℕ → Streamable → Bool
is_visible current v = not v.is_deleted && (not v.is_private || v.user == current)

-- `order by s.createdOn desc`
abbrev pub newest_first : List (ℕ × Streamable) → List (ℕ × Streamable)
newest_first = order_by (λ v. v.created_on)

-- `Streamable.getNewestStreamables`
abbrev pub newest_streamables : ℕ → Database → List (ℕ × Streamable)
newest_streamables current d = newest_first (select (λ _. is_visible current) d.streamables.rows)

-- `Streamable.getPopularStreamables`
abbrev pub popular_streamables : ℕ → Database → List (ℕ × Streamable)
popular_streamables current d =
    order_by (λ v. length v.likers) (select (λ _. is_visible current) d.streamables.rows)

-- `Streamable.getLikedStreamables`
abbrev pub liked_streamables : ℕ → ℕ → Database → List (ℕ × Streamable)
liked_streamables user current d =
    newest_first (select (λ _ v. contains user v.likers && is_visible current v) d.streamables.rows)

-- `Streamable.getUserStreamables`
abbrev pub user_streamables : ℕ → ℕ → Database → List (ℕ × Streamable)
user_streamables user current d =
    newest_first (select (λ _ v. v.user == user && is_visible current v) d.streamables.rows)

-- `Streamable.getPrivateStreamables`
abbrev pub private_streamables : ℕ → Database → List (ℕ × Streamable)
private_streamables current d =
    newest_first
      (select (λ _ v. v.user == current && (not v.is_deleted && v.is_private)) d.streamables.rows)

module _ (query_list : ℕ → ℕ → List (ℕ × Streamable) → List (ℕ × Streamable)) where
  -- A query of the current user, and a page of it.
  abbrev paged_query :
      Request
      → Option ℕ
      → Option ℕ
      → (ℕ → Database → List (ℕ × Streamable))
      → Action (PagedList (ℕ × Streamable))
  paged_query r offset limit query = do
    current ← get_current_user r
    rows ← gets (query current)
    pure (get_items query_list rows offset limit)

  -- A query on a user, who has to be there.
  abbrev paged_user_query :
      Request
      → ℕ
      → Option ℕ
      → Option ℕ
      → (ℕ → ℕ → Database → List (ℕ × Streamable))
      → Action (PagedList (ℕ × Streamable))
  paged_user_query r user offset limit query = do
    found ← find_user_by_id user
    or_throw found (rest user_not_found)
    paged_query r offset limit (query user)

  -- `getNewestStreamablesResult`
  unfoldable pub get_newest_streamables :
      Request → Option ℕ → Option ℕ → Action (PagedList (ℕ × Streamable))
  unfolding in_transaction
  get_newest_streamables r offset limit =
      in_transaction (paged_query r offset limit newest_streamables)

  -- `getPopularStreamablesResult`
  unfoldable pub get_popular_streamables :
      Request → Option ℕ → Option ℕ → Action (PagedList (ℕ × Streamable))
  unfolding in_transaction
  get_popular_streamables r offset limit =
      in_transaction (paged_query r offset limit popular_streamables)

  -- `getPrivateStreamablesResult`
  unfoldable pub get_private_streamables :
      Request → Option ℕ → Option ℕ → Action (PagedList (ℕ × Streamable))
  unfolding in_transaction
  get_private_streamables r offset limit =
      in_transaction (paged_query r offset limit private_streamables)

  -- `getUserStreamablesResult`
  unfoldable pub get_user_streamables :
      Request → ℕ → Option ℕ → Option ℕ → Action (PagedList (ℕ × Streamable))
  unfolding in_transaction
  get_user_streamables r user offset limit =
      in_transaction (paged_user_query r user offset limit user_streamables)

  -- `getLikedStreamablesForUserResult`
  unfoldable pub get_liked_streamables :
      Request → ℕ → Option ℕ → Option ℕ → Action (PagedList (ℕ × Streamable))
  unfolding in_transaction
  get_liked_streamables r user offset limit =
      in_transaction (paged_user_query r user offset limit liked_streamables)
