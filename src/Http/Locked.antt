-- ===== src/Http/Locked.antt =====
-- A request for a password reset, and the endpoints that require an active account.
use graffi_tab_backend.Prelude.{
  ℕ, ◌≡◌, ap, inl, inr, Bool, true, none, some, [], ◌∷◌, IsKeyed, find, find-update, arith,
}
use graffi_tab_backend.Prelude.Text.{Text, text_eq}
use graffi_tab_backend.Errors.{ok, err, rest, user_not_in_expected_state}
use graffi_tab_backend.Model.Account.{User, active}
use graffi_tab_backend.Backend.{Backend, Result-cases}
use graffi_tab_backend.Backend.Transactions.{in_transaction, in_transaction_with_result}
use graffi_tab_backend.Backend.Lookup.{Request, current_id, unique_user, update_user}
use graffi_tab_backend.Backend.Lookup.Laws.{unique-found}
use graffi_tab_backend.Users.Tokens.{reset_password_of, asked_reset}
use graffi_tab_backend.Http.Filters.{check_user_status}

asked :
    (email token : Text) (now : ℕ) (s s' : Backend) {id : ℕ}
    → IsKeyed s.db.users.rows
    → reset_password_of email token now s ≡ (ok id, s')
    → (u : User) × (find id s.db.users.rows ≡ some u)
      × (text_eq u.email email ≡ true)
      × (s'.db ≡ update_user id (asked_reset token now) s.db)
unfolding reset_password_of in_transaction_with_result in_transaction
asked email token now s s' {id} k e =
    let mine : ℕ → User → Bool = (λ _ u. text_eq u.email email) in
    elim (Result-cases (unique_user mine s)) [
      | inl (none, t, q) ↦ ground arith
      | inl (some (j, u), t, q) ↦
          let (at, own) = unique-found mine s.db.users.rows {k = j} {v = u} k (ap (λ p. p.0) q) in
          (u, ground (arith, at), own, ground arith)
      | inr (f, t, q) ↦ ground arith
    ]

-- Where no two users share an id, a request for a password reset that returns shuts out the user
-- whom it returns: whatever status the account had, the check of the endpoints that require an
-- active one refuses this user and changes nothing.
pub reset_request_locks :
    (email token : Text) (now : ℕ) (r : Request) (s s' : Backend) {id : ℕ}
    → IsKeyed s.db.users.rows
    → reset_password_of email token now s ≡ (ok id, s')
    → current_id r ≡ some id
    → check_user_status r (active ∷ []) s' ≡ (err (rest user_not_in_expected_state), s')
unfolding check_user_status
reset_request_locks email token now r s s' {id} k e c =
    let (u, at, own, after) = asked email token now s s' {id = id} k e in
    let row = find-update id id (asked_reset token now) s.db.users.rows in ground (arith, row)
