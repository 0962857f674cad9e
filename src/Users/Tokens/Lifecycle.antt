-- ===== src/Users/Tokens/Lifecycle.antt =====
-- The life of an account: which status follows which, and what a token opens, and when.
use graffi_tab_backend.Prelude.{
  ℕ, ◌+◌, ◌≤◌, ◌≡◌, ◌≢◌, inl, inr, Bool, true, not, ◌==◌, some, filter, find, update, select,
  find-update, IsKeyed, update-IsKeyed, arith, Option-cases,
}
use graffi_tab_backend.Prelude.Text.{Text}
use graffi_tab_backend.Errors.{ok}
use graffi_tab_backend.Model.{Database}
use graffi_tab_backend.Model.Account.{
  User, AccountStatus, status_eq, pending_activation, active, reset_password, MetadataKey, get,
  activation_token, activation_token_date, reset_password_token, reset_password_token_date, millis,
  text,
}
use graffi_tab_backend.Backend.{Backend, Result-cases}
use graffi_tab_backend.Backend.Lookup.{update_user, Request, unique_result}
use graffi_tab_backend.Backend.Lookup.Laws.{Query-cases, unique-found, unique-only}
use graffi_tab_backend.Users.Registration.{PasswordEncoder}
use graffi_tab_backend.Users.Tokens.{
  holds, check_token, activation_check, reset_check, activate_user, complete_password_reset,
  activation_token_expiration_ms, reset_password_token_expiration_ms,
}

status_eq_sound : (a b : AccountStatus) → status_eq a b ≡ true → a ≡ b
status_eq_sound a b h = ground arith

-- The row of the user is there and satisfies the property.
abbrev pub HasUser : ℕ → (User → Type 0) → Database → Type 0
HasUser id P d = (u : User) × (find id d.users.rows ≡ some u) × P u

-- What makes a token open an account: the row holds it, it has not expired, and the account
-- is in the status that the operation is for.
abbrev pub Opens : MetadataKey → MetadataKey → ℕ → AccountStatus → Text → ℕ → User → Type 0
Opens key date_key limit status token now u =
    (holds token (get key u.metadata_items) ≡ true)
    × ((date : ℕ) × (get date_key u.metadata_items ≡ some (millis date)) × (now ≤ date + limit))
    × (u.account_status ≡ status)

-- The checks only read.
pub check_token-state :
    (key date_key : MetadataKey) (limit : ℕ) (status : AccountStatus) (token : Text) (now : ℕ)
    (s : Backend)
    → (check_token key date_key limit status token now s).1 ≡ s
unfolding check_token
check_token-state key date_key limit status token now s = ground arith

pub check_token_sound :
    (key date_key : MetadataKey) (limit : ℕ) (status : AccountStatus) (token : Text) (now : ℕ)
    (s s' : Backend) {id : ℕ} {u : User}
    → IsKeyed s.db.users.rows
    → check_token key date_key limit status token now s ≡ (ok (id, u), s')
    → (s' ≡ s) × (find id s.db.users.rows ≡ some u) × Opens key date_key limit status token now u
unfolding check_token
check_token_sound key date_key limit status token now s s' {id} {u} k e =
    let p : ℕ → User → Bool = (λ _ v. holds token (get key v.metadata_items)) in
    elim (Query-cases (unique_result (select p s.db.users.rows))) [
      | inl q ↦ ground arith
      | inr (inr (f, q)) ↦ ground arith
      | inr (inl ((j, v), q)) ↦ elim (Option-cases (get date_key v.metadata_items)) [
        | inl d ↦ ground arith
        | inr (text t, d) ↦ ground arith
        | inr (millis n, d) ↦ (
          ground arith,
          ground (arith, unique-found p s.db.users.rows k q),
          (
            ground (arith, unique-found p s.db.users.rows k q),
            (n, ground arith, ground arith),
            ground (arith, status_eq_sound v.account_status status),
          ),
        )
      ]
    ]

check_token_only :
    (key date_key : MetadataKey) (limit : ℕ) (status : AccountStatus) (token : Text) (now j : ℕ)
    (s s' : Backend) {id : ℕ} {u w : User}
    → IsKeyed s.db.users.rows
    → check_token key date_key limit status token now s ≡ (ok (id, u), s')
    → find j s.db.users.rows ≡ some w
    → holds token (get key w.metadata_items) ≡ true
    → j ≡ id
unfolding check_token
check_token_only key date_key limit status token now j s s' {id} {u} {w} k e f h =
    let p : ℕ → User → Bool = (λ _ v. holds token (get key v.metadata_items)) in
    elim (Query-cases (unique_result (select p s.db.users.rows))) [
      | inl q ↦ ground arith
      | inr (inr (f, q)) ↦ ground arith
      | inr (inl ((i, v), q)) ↦
          let only = unique-only p s.db.users.rows j k q f h in
          elim (Option-cases (get date_key v.metadata_items)) [
            | inl d ↦ ground arith
            | inr (text t, d) ↦ ground arith
            | inr (millis n, d) ↦ ground arith
          ]
    ]

-- Where no two users share an id, an activation that returns has found a pending account that
-- holds the token, within a day of the date of the token, and makes it active; it changes
-- nothing else in the database.
pub activate_user_sound :
    (token : Text) (now : ℕ) (s s' : Backend) {id : ℕ}
    → IsKeyed s.db.users.rows
    → activate_user token now s ≡ (ok id, s')
    → HasUser id
        (Opens activation_token activation_token_date activation_token_expiration_ms
          pending_activation token now)
        s.db
      × (s'.db ≡ update_user id (λ u. record u { account_status = active }) s.db)
unfolding activate_user
activate_user_sound token now s s' {id} k e = elim (Result-cases (activation_check token now s)) [
  | inl ((j, u), t, q) ↦
      let c = check_token_sound activation_token activation_token_date _ _ token now s t k q in
      ((u, ground arith, c.2), ground arith)
  | inr (f, t, q) ↦ ground arith
]

-- Where no two users share an id, an activation that returned is the last with its token: in the
-- state that it leaves, the same token is refused at any time.
pub activate_user_once :
    (token : Text) (now later : ℕ) (s s' : Backend) {id : ℕ} (other : ℕ)
    → IsKeyed s.db.users.rows
    → activate_user token now s ≡ (ok id, s')
    → (activate_user token later s').0 ≢ ok other
unfolding activate_user
activate_user_once token now later s s' {id} other k e again =
    let f : User → User = (λ u. record u { account_status = active }) in
    let ((u, found, opens), same) = activate_user_sound token now s s' k e in
    let k' : IsKeyed s'.db.users.rows = rw same (update-IsKeyed id f s.db.users.rows k) in
    let there : find id s'.db.users.rows ≡ some (f u) =
      ground (arith, find-update id id f s.db.users.rows) in
    elim (Result-cases (activation_check token later s')) [
      | inl ((j, v), t, q) ↦
          let c =
            check_token_sound activation_token activation_token_date _ _ token later s' t k' q in
          let o =
            check_token_only activation_token activation_token_date _ _ token later id s' t k' q
              there opens.0 in
          ground arith
      | inr (x, t, q) ↦ ground arith
    ]

-- Where no two users share an id, a reset that returns has found a user who holds the token, in
-- RESET_PASSWORD and within half an hour of the date of the token. It makes the account active
-- with the new password and no failed logins, takes away every session of the user, and sends
-- and queues nothing.
pub complete_password_reset_sound :
    (encoder : PasswordEncoder) (r : Request) (token new_password salt : Text) (s s' : Backend)
    {id : ℕ}
    → IsKeyed s.db.users.rows
    → complete_password_reset encoder r token new_password salt s ≡ (ok id, s')
    → HasUser id
        (Opens reset_password_token reset_password_token_date reset_password_token_expiration_ms
          reset_password token r.now)
        s.db
      × (s'.db.users.rows
          ≡ update id
              (λ u. record u {
                account_status = active;
                password = encoder.encode salt new_password;
                failed_logins = some 0;
              })
              s.db.users.rows)
      × (s'.db.sessions ≡ filter (λ x. not (x.user == id)) s.db.sessions)
      × (s'.mails ≡ s.mails)
      × (s'.jobs ≡ s.jobs)
unfolding complete_password_reset
complete_password_reset_sound encoder r token new_password salt s s' {id} k e =
    elim (Result-cases (reset_check token r.now s)) [
      | inl ((j, u), t, q) ↦
          let c =
            check_token_sound reset_password_token reset_password_token_date _ _ token r.now s t k
              q in
          ((u, ground arith, c.2), ground arith, ground arith, ground arith, ground arith)
      | inr (f, t, q) ↦ ground arith
    ]
