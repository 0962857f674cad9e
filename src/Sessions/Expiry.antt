-- ===== src/Sessions/Expiry.antt =====
-- `cleanExpiredSessions` of UserSessionService, and the sessions that are expired.
use graffi_tab_backend.Prelude.{
  ℕ, ◌+◌, ◌≡◌, refl, inl, inr, Bool, false, not, ◌||◌, List, [], ◌∷◌, leb, filter, any, arith,
  Bool-cases, if◌then◌else◌,
}
use graffi_tab_backend.Prelude.Text.{Text, text_eq, text_eq_iff, text_eq_refl}
use graffi_tab_backend.Errors.{ok}
use graffi_tab_backend.Model.{UserSession}
use graffi_tab_backend.Backend.{Backend}
use graffi_tab_backend.Sessions.{
  set_sessions, delete_rows, delete_all, expired_session_ids, session_validity_interval,
  clean_expired_sessions,
}

abbrev pub is_expired : ℕ → UserSession → Bool
is_expired now x = leb (x.created_on + session_validity_interval) now

abbrev has_id : Text → UserSession → Bool
has_id id x = text_eq x.session_id id

-- No session id stands twice.
abbrev pub IsUnique : List UserSession → Type 0
IsUnique [] = Unit
IsUnique (x ∷ xs) = (any (has_id x.session_id) xs ≡ false) × IsUnique xs

-- All the deletions, one after the other.
abbrev delete_each : List Text → List UserSession → List UserSession
delete_each [] xs = xs
delete_each (id ∷ ids) xs = delete_each ids (delete_rows id xs)

delete_all-eq-ok :
    (ids : List Text) (s : Backend)
    → delete_all ids s ≡ (ok tt, record s { db = set_sessions (delete_each ids) s.db })
unfolding delete_all
delete_all-eq-ok [] s = refl
delete_all-eq-ok (id ∷ ids) s =
    delete_all-eq-ok ids (record s { db = set_sessions (delete_rows id) s.db })

delete_each-nil : (ids : List Text) → delete_each ids [] ≡ []
delete_each-nil [] = refl
delete_each-nil (id ∷ ids) = delete_each-nil ids

abbrev listed : Text → List Text → Bool
listed id [] = false
listed id (i ∷ ids) = text_eq id i || listed id ids

delete_each-cons :
    (ids : List Text) (x : UserSession) (xs : List UserSession)
    → delete_each ids (x ∷ xs)
      ≡ (if listed x.session_id ids then delete_each ids xs else x ∷ delete_each ids xs)
delete_each-cons [] x xs = refl
delete_each-cons (id ∷ ids) x xs = ground (arith, delete_each-cons ids x (delete_rows id xs))

-- A row of another id does not change what the deletions leave of the rest.
delete_rows_absent :
    (id : Text) (xs : List UserSession) → any (has_id id) xs ≡ false → delete_rows id xs ≡ xs
delete_rows_absent id [] h = refl
delete_rows_absent id (x ∷ xs) h = ground (arith, delete_rows_absent id xs)

not_listed :
    (now : ℕ) (id : Text) (xs : List UserSession)
    → any (has_id id) xs ≡ false
    → listed id (expired_session_ids now xs) ≡ false
not_listed now id [] h = refl
not_listed now id (x ∷ xs) h =
    ground (arith, not_listed now id xs, text_eq_iff id x.session_id, text_eq_iff x.session_id id)

delete_each_expired :
    (now : ℕ) (xs : List UserSession)
    → IsUnique xs
    → delete_each (expired_session_ids now xs) xs ≡ filter (λ x. not (is_expired now x)) xs
delete_each_expired now [] u = refl
delete_each_expired now (x ∷ xs) (n, u) = elim (Bool-cases (is_expired now x)) [
  | inl old ↦ ground (
    arith,
    text_eq_refl x.session_id,
    delete_rows_absent x.session_id xs n,
    delete_each_expired now xs u,
  )
  | inr live ↦ ground (
    arith,
    delete_each-cons (expired_session_ids now xs) x xs,
    not_listed now x.session_id xs n,
    delete_each_expired now xs u,
  )
]

-- Where no session id stands twice, the cleaner returns, and leaves exactly the sessions whose
-- date is less than a week back, in their order, and changes nothing else.
pub clean_expired_sessions_lem :
    (now : ℕ) (s : Backend)
    → IsUnique s.db.sessions
    → clean_expired_sessions now s
      ≡ (ok tt, record s { db = set_sessions (filter (λ x. not (is_expired now x))) s.db })
unfolding clean_expired_sessions
clean_expired_sessions_lem now s u = rw (delete_all-eq-ok, delete_each_expired now s.db.sessions u)
