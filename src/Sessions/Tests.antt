-- ===== src/Sessions/Tests.antt =====
-- Sessions of two users, cleaned and logged out.
use graffi_tab_backend.Prelude.{ℕ, ◌≡◌, not, List, [], ◌∷◌, filter, arith}
use graffi_tab_backend.Prelude.Text.{Text, codes}
use graffi_tab_backend.Errors.{ok}
use graffi_tab_backend.Model.{UserSession}
use graffi_tab_backend.Backend.{Backend}
use graffi_tab_backend.Samples.{start}
use graffi_tab_backend.Sessions.{set_sessions, clean_expired_sessions}
use graffi_tab_backend.Sessions.Expiry.{is_expired, clean_expired_sessions_lem}

abbrev session : Text → ℕ → ℕ → UserSession
session id user now = record { session_id = id; content = []; created_on = now; user = user }

abbrev sessions : List UserSession
sessions =
    session (codes "a") 1 0 ∷ session (codes "b") 2 900_000_000 ∷ session (codes "c") 1 5 ∷ []

abbrev busy : Backend
busy = record start { db = set_sessions (λ _. sessions) (start.db) }

clean_expired_sessions_lem_example : clean_expired_sessions 1_000_000_000 busy ≡ (
  ok tt,
  record busy { db = set_sessions (filter (λ x. not (is_expired 1_000_000_000 x))) (busy.db) },
)
clean_expired_sessions_lem_example = clean_expired_sessions_lem 1_000_000_000 busy (ground arith)
