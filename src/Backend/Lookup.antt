-- ===== src/Backend/Lookup.antt =====
-- Queries by a unique column, and the user on whose behalf a request runs.
pub mod Laws
use graffi_tab_backend.Prelude.{ℕ, Bool, Option, none, some, List, [], ◌∷◌, find, update, select}
use graffi_tab_backend.Prelude.Text.{Text}
use graffi_tab_backend.Errors.{
  rest, non_unique_result, user_not_logged_in, null_pointer, Result, ok, err,
}
use graffi_tab_backend.Model.{Database}
use graffi_tab_backend.Model.Account.{User}
use graffi_tab_backend.Backend.{Action, throw, gets, or_throw}

-- `query.uniqueResult()`: null for no row, and an exception for two.
abbrev pub unique_result {ℓ} : {A : Type ℓ} → List A → Result (Option A)
unique_result [] = ok none
unique_result (a ∷ []) = ok (some a)
unique_result (a ∷ b ∷ l) = err non_unique_result

-- `query.list()`
abbrev pub list_users : (ℕ → User → Bool) → Action (List (ℕ × User))
list_users p = gets (λ d. select p d.users.rows)

-- The one user that a `where` clause selects.
abbrev pub unique_user : (ℕ → User → Bool) → Action (Option (ℕ × User))
unique_user p s = (unique_result (select p s.db.users.rows), s)

-- `userDao.find(id)`
abbrev pub find_user_by_id : ℕ → Action (Option User)
find_user_by_id id = gets (λ d. find id d.users.rows)

-- A dereference of a reference that may be null.
abbrev pub deref : {A : Type 0} → Option A → Action A
deref o = or_throw o null_pointer

abbrev pub update_user : ℕ → (User → User) → Database → Database
update_user id f d = record d { users = record (d.users) { rows = update id f d.users.rows } }

-- What the thread knows of its user: `RunAsUser`, the cache of `UserService`, and the principal
-- of the security context; the id of its HTTP session; and the time at which it runs.
pub record Request : Type 0 where
  pub run_as : Option ℕ
  pub cached : Option ℕ
  pub principal : Option ℕ
  pub session_id : Option Text
  pub now : ℕ

-- Whom `getCurrentUser` finds: `RunAsUser` first, then the cache, then the principal.
unfoldable pub current_id : Request → Option ℕ
current_id r = elim r.run_as [
  | some id ↦ some id
  | none ↦ elim r.cached [ some id ↦ some id | none ↦ r.principal ]
]

-- `getCurrentUser`, as the id of the user that it returns.
abbrev pub get_current_user : Request → Action ℕ
get_current_user r = or_throw (current_id r) (rest user_not_logged_in)
