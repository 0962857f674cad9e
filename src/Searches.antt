-- ===== src/Searches.antt =====
-- The searches of service/user/UserService.java and service/streamable/StreamableService.java by
-- `like`, and the list of a user's mentions. The collation of the columns and
-- `String.toLowerCase` are parameters.
pub mod Plain
pub mod Found
mod Tests
use graffi_tab_backend.Prelude.{
  ℕ, Bool, true, false, not, ◌&&◌, ◌||◌, Option, none, some, List, [], ◌∷◌, ◌++◌, ◌==◌, any, select,
  if◌then◌else◌,
}
use graffi_tab_backend.Prelude.Text.{Text, is_empty}
use graffi_tab_backend.Prelude.Sorting.{order_by}
use graffi_tab_backend.Errors.{user_not_found, rest}
use graffi_tab_backend.Model.{Database}
use graffi_tab_backend.Model.Account.{User}
use graffi_tab_backend.Model.Content.{Streamable, NotificationKind}
use graffi_tab_backend.Model.Content
use graffi_tab_backend.Backend.{Action, pure, gets, or_throw, ◌>>=◌, ◌>>◌}
use graffi_tab_backend.Backend.Transactions.{in_transaction}
use graffi_tab_backend.Backend.Lookup.{find_user_by_id, Request, get_current_user}
use graffi_tab_backend.Paging.{PagedList, get_items}
use graffi_tab_backend.Streamables.Visibility.{is_visible, newest_first}
use graffi_tab_backend.Users.Profiles.{is_activated}

-- A pattern of `like`: any text, any code unit, or a code unit for itself.
pub data Token : Type 0 where
  any_text any_code : Token
  literal : ℕ → Token

abbrev pub token : ℕ → Token
token c = if c == b'%' then any_text else if c == b'_' then any_code else literal c

-- The tokens of a pattern, where a backslash makes the next code unit stand for itself.
abbrev pub tokens_from : Bool → Text → List Token
tokens_from true [] = literal b'\\' ∷ []
tokens_from true (c ∷ t) = literal c ∷ tokens_from false t
tokens_from false [] = []
tokens_from false (c ∷ t) = elim (c == b'\\') [
  | true ↦ tokens_from true t
  | false ↦ token c ∷ tokens_from false t
]

-- `"%" + text + "%"`
abbrev pub anywhere : Text → Text
anywhere text = b'%' ∷ text ++ b'%' ∷ []

-- What the collation of a column takes for the same: two characters, as `like` compares them one
-- by one, and two texts, as `distinct` does. A character beyond the basic plane is two code units
-- here.
pub record Collation : Type 0 where
  pub same_code : ℕ → ℕ → Bool
  pub same_text : Text → Text → Bool

module _ (collation : Collation) where
  pub fits : List Token → Text → Bool
  fits [] t = is_empty t
  fits (any_text ∷ ps) [] = fits ps []
  fits (any_text ∷ ps) (c ∷ t) = fits ps (c ∷ t) || fits (any_text ∷ ps) t
  fits (any_code ∷ ps) [] = false
  fits (any_code ∷ ps) (c ∷ t) = fits ps t
  fits (literal p ∷ ps) [] = false
  fits (literal p ∷ ps) (c ∷ t) = collation.same_code p c && fits ps t

  -- `t like pattern`
  unfoldable pub matches : Text → Text → Bool
  unfolding fits
  matches pattern t = fits (tokens_from false pattern) t

  -- `User.searchUser`
  abbrev pub search_user : Text → Database → List (ℕ × User)
  search_user pattern d =
      select
        (λ _ u.
          (matches pattern u.username
            || matches pattern u.first_name
            || matches pattern u.last_name)
          && is_activated u)
        d.users.rows

  -- `searchUsersResult`, for Hibernate's pages
  unfoldable pub search_users :
      (ℕ → ℕ → List (ℕ × User) → List (ℕ × User))
      → Text
      → Option ℕ
      → Option ℕ
      → Action (PagedList (ℕ × User))
  unfolding in_transaction
  search_users query_list user_query offset limit = in_transaction do
    rows ← gets (search_user (anywhere user_query))
    pure (get_items query_list rows offset limit)

  -- `Streamable.searchStreamablesForHashtag`
  abbrev pub streamables_for_hashtag : Text → ℕ → Database → List (ℕ × Streamable)
  streamables_for_hashtag pattern current d =
      newest_first (
        select (λ _ v. any (matches pattern) v.hashtags && is_visible current v) d.streamables.rows)

  -- `distinct`
  abbrev pub add_distinct : List Text → List Text → List Text
  add_distinct [] found = found
  add_distinct (h ∷ hs) found =
      add_distinct hs
        (if any (λ g. collation.same_text g h) found then found else (found ++ h ∷ []))

  abbrev pub matching_hashtags : Text → List Text → List Text
  matching_hashtags pattern [] = []
  matching_hashtags pattern (h ∷ hs) =
      if matches pattern h then h ∷ matching_hashtags pattern hs else matching_hashtags pattern hs

  -- `Streamable.searchHashtags`
  abbrev pub hashtags_of : Text → List (ℕ × Streamable) → List Text → List Text
  hashtags_of pattern [] found = found
  hashtags_of pattern ((j, v) ∷ t) found =
      hashtags_of pattern t (add_distinct (matching_hashtags pattern v.hashtags) found)

  -- `searchStreamablesForHashtagResult`, for Hibernate's pages and `toLowerCase()` in the locale of
  -- the server
  unfoldable pub search_streamables_for_hashtag :
      (ℕ → ℕ → List (ℕ × Streamable) → List (ℕ × Streamable))
      → (Text → Text)
      → Request
      → Text
      → Option ℕ
      → Option ℕ
      → Action (PagedList (ℕ × Streamable))
  unfolding in_transaction
  search_streamables_for_hashtag query_list to_lower_case r hashtag offset limit = in_transaction do
    current ← get_current_user r
    rows ← gets (streamables_for_hashtag (anywhere (to_lower_case hashtag)) current)
    pure (get_items query_list rows offset limit)

  -- `searchHashtags`
  unfoldable pub search_hashtags :
      (ℕ → ℕ → List Text → List Text)
      → (Text → Text)
      → Text
      → Option ℕ
      → Option ℕ
      → Action (PagedList Text)
  unfolding in_transaction
  search_hashtags query_list to_lower_case hashtag offset limit = in_transaction do
    rows ← gets λ d. hashtags_of (to_lower_case hashtag ++ b'%' ∷ []) d.streamables.rows []
    pure (get_items query_list rows offset limit)

-- The streamable of a notification for a mention.
abbrev pub mentions : ℕ → NotificationKind → Bool
mentions id k = elim k [ Content.mention user streamable comment ↦ streamable == id | _ ↦ false ]

-- `Streamable.getUserMentions`
abbrev pub user_mentions : ℕ → ℕ → Database → List (ℕ × Streamable)
user_mentions user current d = newest_first (
    select
      (λ j v.
        any (λ x. x.1.receiver == user && mentions j x.1.kind) d.notifications.rows
        && is_visible current v)
      d.streamables.rows)

module _ (query_list : ℕ → ℕ → List (ℕ × Streamable) → List (ℕ × Streamable)) where
  -- `getUserMentionsResult`
  unfoldable pub get_user_mentions :
      Request → ℕ → Option ℕ → Option ℕ → Action (PagedList (ℕ × Streamable))
  unfolding in_transaction
  get_user_mentions r user offset limit = in_transaction do
    found ← find_user_by_id user
    or_throw found (rest user_not_found)
    current ← get_current_user r
    rows ← gets (user_mentions user current)
    pure (get_items query_list rows offset limit)
