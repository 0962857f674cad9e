-- ===== src/Sessions.antt =====
-- service/user/UserSessionService.java: the sessions that the database keeps.
pub mod Expiry
pub mod Logout
mod Tests
use graffi_tab_backend.Prelude.{
  ℕ, ◌+◌, Bool, true, false, not, ◌&&◌, Option, none, some, List, [], ◌∷◌, ◌++◌, ◌==◌, leb, filter,
  if◌then◌else◌, is_some,
}
use graffi_tab_backend.Prelude.Text.{Text, text_eq}
use graffi_tab_backend.Errors.{illegal_state}
use graffi_tab_backend.Model.{UserSession, Database}
use graffi_tab_backend.Backend.{Action, pure, throw, gets, of_result, modify, ◌>>◌, ◌>>=◌}
use graffi_tab_backend.Backend.Transactions.{in_transaction, in_transaction_with_result}
use graffi_tab_backend.Backend.Lookup.{unique_result, Request, get_current_user}

abbrev pub set_sessions : (List UserSession → List UserSession) → Database → Database
set_sessions f d = record d { sessions = f d.sessions }

-- `findBySessionId`
abbrev pub find_by_session_id : Text → Action (Option UserSession)
find_by_session_id id = do
  found ← gets (λ d. filter (λ x. text_eq x.session_id id) d.sessions)
  of_result (unique_result found)

-- `exists` and `existsSession`
unfoldable pub exists : Text → Action Bool
exists id = do found ← find_by_session_id id; pure (is_some found)

-- A change of every row that the session id selects.
abbrev pub change : Text → (UserSession → UserSession) → List UserSession → List UserSession
change id f [] = []
change id f (x ∷ xs) = (if text_eq x.session_id id then f x else x) ∷ change id f xs

-- `saveOrUpdateSessionData`, with the serialised attributes of the HTTP session.
unfoldable pub save_or_update_session_data : Request → Text → Text → Action (Unit {0})
unfolding in_transaction
save_or_update_session_data r id content = in_transaction do
  found ← find_by_session_id id
  elim found [
    | none ↦ do
      user ← get_current_user r
      modify (
          set_sessions λ xs.
            xs
            ++ record { session_id = id; content = content; created_on = r.now; user = user } ∷ [])
    | some _ ↦ modify (set_sessions (change id (λ x. record x { content = content })))
  ]

-- `UserSession.deleteSession`
abbrev pub delete_rows : Text → List UserSession → List UserSession
delete_rows id = filter (λ x. not (text_eq x.session_id id))

-- The body of the task of `deleteSession`.
unfoldable pub delete_session : Text → Action (Unit {0})
unfolding in_transaction
delete_session id = in_transaction (modify (set_sessions (delete_rows id)))

-- The body of the task of `touchSession`.
unfoldable pub touch_session : Request → Text → Action (Unit {0})
unfolding in_transaction
touch_session r id = in_transaction do
  found ← find_by_session_id id
  elim found [
    | none ↦ pure tt
    | some _ ↦ modify (set_sessions (change id (λ x. record x { created_on = r.now })))
  ]

-- The delete statement of `logoutEverywhere`.
abbrev pub logged_out : ℕ → Option Text → List UserSession → List UserSession
logged_out user none = filter (λ x. not (x.user == user))
logged_out user (some kept) = filter (λ x. not (x.user == user && not (text_eq x.session_id kept)))

-- `logoutEverywhere`
unfoldable pub logout_everywhere : Request → ℕ → Bool → Action (Unit {0})
logout_everywhere r user false = modify (set_sessions (logged_out user none))
logout_everywhere r user true = elim r.session_id [
  | none ↦ throw illegal_state
  | some id ↦ modify (set_sessions (logged_out user (some id)))
]

-- A week, in milliseconds.
abbrev pub session_validity_interval : ℕ
session_validity_interval = 604_800_000

-- `UserSession.findExpiredSessionIds`: `createdOn <= now - interval`.
abbrev pub expired_session_ids : ℕ → List UserSession → List Text
expired_session_ids now [] = []
expired_session_ids now (x ∷ xs) =
    if leb (x.created_on + session_validity_interval) now
    then x.session_id ∷ expired_session_ids now xs
    else expired_session_ids now xs

-- The loop of `cleanExpiredSessions`: a transaction for each id.
pub delete_all : List Text → Action (Unit {0})
unfolding in_transaction
delete_all [] = pure tt
delete_all (id ∷ ids) = in_transaction (modify (set_sessions (delete_rows id))) >> delete_all ids

-- `cleanExpiredSessions`
unfoldable pub clean_expired_sessions : ℕ → Action (Unit {0})
unfolding in_transaction_with_result delete_all
clean_expired_sessions now = do
  ids ← in_transaction_with_result (gets (λ d. expired_session_ids now d.sessions))
  delete_all ids
