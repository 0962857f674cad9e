-- ===== src/Users/Commands/Statuses/Steps.antt =====
-- What each operation of UserService does to the status of an account.
use graffi_tab_backend.Prelude.{
  ℕ, refl, inl, inr, Bool, true, false, none, some, IsKeyed, arith, Option-cases,
}
use graffi_tab_backend.Prelude.Text.{Text, text_eq}
use graffi_tab_backend.Model.Account.{
  active, User, ExternalProviderType, activation_token, activation_token_date, reset_password_token,
  reset_password_token_date,
}
use graffi_tab_backend.Backend.{Backend, Result-cases}
use graffi_tab_backend.Backend.Lookup.{Request, current_id, unique_user}
use graffi_tab_backend.Users.Validation.{UserForm, get_email, validate_create_user}
use graffi_tab_backend.Users.Validation.Accepted.{check_user-state}
use graffi_tab_backend.Users.Registration.{
  PasswordEncoder, Drawn, create_user, create_external_user, edit_user, registered,
  registered_external, edited,
}
use graffi_tab_backend.Users.Tokens.{
  activate_user, activation_check, reset_password_of, complete_password_reset, reset_check,
  change_password, recovered, asked_reset, changed,
}
use graffi_tab_backend.Users.Tokens.Lifecycle.{check_token_sound}
use graffi_tab_backend.Users.Logins.{
  update_login_attempts, reset_login_attempts, find_by_username_or_email, locked, failed_once,
  no_failures, attempts,
}
use graffi_tab_backend.Users.Following.{Client, follow, unfollow, add_following, remove_following}
use graffi_tab_backend.Users.Commands.Statuses.{
  Evolves, same-Evolves, update-Evolves, append-Evolves, keep-Evolves, to_reset,
}

module _ (x : ℕ) where
  pub activate_user-Evolves :
      (token : Text) (now : ℕ) (s : Backend)
      → IsKeyed s.db.users.rows
      → Evolves x s (activate_user token now s).1
  unfolding activate_user
  activate_user-Evolves token now s k = elim (Result-cases (activation_check token now s)) [
    | inl ((j, u), t, q) ↦
        let c = check_token_sound activation_token activation_token_date _ _ token now s t k q in
        ground (
          arith,
          update-Evolves x j (λ (v : User). record v { account_status = active }) s.db.users.rows
              (λ v e. ground arith),
        )
    | inr (e, t, q) ↦ ground (arith, same-Evolves x s.db.users.rows)
  ]

  pub complete_password_reset-Evolves :
      (encoder : PasswordEncoder) (r : Request) (token new salt : Text) (s : Backend)
      → IsKeyed s.db.users.rows
      → Evolves x s (complete_password_reset encoder r token new salt s).1
  unfolding complete_password_reset
  complete_password_reset-Evolves encoder r token new salt s k =
      elim (Result-cases (reset_check token r.now s)) [
        | inl ((j, u), t, q) ↦
            let c =
              check_token_sound reset_password_token reset_password_token_date _ _ token r.now s t k
                q in
            ground (
              arith,
              update-Evolves x j (recovered encoder salt new) s.db.users.rows (λ v e. ground arith),
            )
        | inr (e, t, q) ↦ ground (arith, same-Evolves x s.db.users.rows)
      ]

  pub reset_password_of-Evolves :
      (email token : Text) (now : ℕ) (s : Backend)
      → Evolves x s (reset_password_of email token now s).1
  unfolding reset_password_of
  reset_password_of-Evolves email token now s =
      elim (Result-cases (unique_user (λ _ u. text_eq u.email email) s)) [
        | inl (none, t, q) ↦ ground (arith, same-Evolves x s.db.users.rows)
        | inl (some (j, u), t, q) ↦ ground (
          arith,
          update-Evolves x j (asked_reset token now) s.db.users.rows
              (λ v _. to_reset v.account_status),
        )
        | inr (e, t, q) ↦ ground (arith, same-Evolves x s.db.users.rows)
      ]

  pub change_password-Evolves :
      (encoder : PasswordEncoder) (r : Request) (old new salt : Text) (s : Backend)
      → Evolves x s (change_password encoder r old new salt s).1
  unfolding change_password
  change_password-Evolves encoder r old new salt s = elim (Option-cases (current_id r)) [
    | inl e ↦ ground (arith, same-Evolves x s.db.users.rows)
    | inr (j, e) ↦ ground (
      arith,
      same-Evolves x s.db.users.rows,
      keep-Evolves x j (changed encoder salt new r.now) s.db.users.rows (λ _. refl),
    )
  ]

  pub update_login_attempts-Evolves :
      (name : Text) (s : Backend) → Evolves x s (update_login_attempts name s).1
  unfolding update_login_attempts
  update_login_attempts-Evolves name s = elim (Result-cases (find_by_username_or_email name s)) [
    | inl (none, t, q) ↦ ground (arith, same-Evolves x s.db.users.rows)
    | inl (some (j, u), t, q) ↦ ground (
      arith,
      update-Evolves x j locked s.db.users.rows (λ v _. to_reset v.account_status),
      keep-Evolves x j (failed_once (attempts u.failed_logins)) s.db.users.rows (λ _. refl),
    )
    | inr (e, t, q) ↦ ground (arith, same-Evolves x s.db.users.rows)
  ]

  pub reset_login_attempts-Evolves :
      (name : Text) (s : Backend) → Evolves x s (reset_login_attempts name s).1
  unfolding reset_login_attempts
  reset_login_attempts-Evolves name s = elim (Result-cases (find_by_username_or_email name s)) [
    | inl (none, t, q) ↦ ground (arith, same-Evolves x s.db.users.rows)
    | inl (some (j, u), t, q) ↦
        ground (arith, keep-Evolves x j no_failures s.db.users.rows (λ _. refl))
    | inr (e, t, q) ↦ ground (arith, same-Evolves x s.db.users.rows)
  ]

  pub follow-Evolves :
      (r : Request) (c : Client) (b : ℕ) (s : Backend) → Evolves x s (follow r c b s).1
  unfolding follow
  follow-Evolves r c b s = elim (Option-cases (current_id r)) [
    | inl e ↦ ground (arith, same-Evolves x s.db.users.rows)
    | inr (a, e) ↦ ground (
      arith,
      same-Evolves x s.db.users.rows,
      keep-Evolves x a (add_following b) s.db.users.rows (λ _. refl),
    )
  ]

  pub unfollow-Evolves : (r : Request) (b : ℕ) (s : Backend) → Evolves x s (unfollow r b s).1
  unfolding unfollow
  unfollow-Evolves r b s = elim (Option-cases (current_id r)) [
    | inl e ↦ ground (arith, same-Evolves x s.db.users.rows)
    | inr (a, e) ↦ ground (
      arith,
      same-Evolves x s.db.users.rows,
      keep-Evolves x a (remove_following b) s.db.users.rows (λ _. refl),
    )
  ]

  pub create_user-Evolves :
      (encoder : PasswordEncoder) (immediate : Bool) (f : UserForm) (d : Drawn) (now : ℕ)
      (s : Backend)
      → Evolves x s (create_user encoder immediate f d now s).1
  unfolding create_user validate_create_user
  create_user-Evolves encoder immediate f d now s = elim (Result-cases (get_email f, s)) [
    | inr (e, t, q) ↦ ground (arith, same-Evolves x s.db.users.rows, check_user-state f false s)
    | inl (email, t, q) ↦ ground (
      arith,
      same-Evolves x s.db.users.rows,
      check_user-state f false s,
      append-Evolves x s.db.users.next (registered encoder immediate f d email now) s.db.users.rows,
    )
  ]

  pub create_external_user-Evolves :
      (encoder : PasswordEncoder) (is_valid_token : Text → ExternalProviderType → Bool)
      (f : UserForm) (d : Drawn) (id token : Text) (type : ExternalProviderType) (now : ℕ)
      (s : Backend)
      → Evolves x s (create_external_user encoder is_valid_token f d id token type now s).1
  unfolding create_external_user validate_create_user
  create_external_user-Evolves encoder is_valid_token f d id token type now s =
      let form = record f { password = some (encoder.encode d.salt d.token) } in
      elim (Result-cases (get_email form, s)) [
        | inr (e, t, q) ↦
            ground (arith, same-Evolves x s.db.users.rows, check_user-state form false s)
        | inl (email, t, q) ↦
            let row = registered_external encoder is_valid_token form d email type id token now in
            ground (
              arith,
              same-Evolves x s.db.users.rows,
              check_user-state form false s,
              append-Evolves x s.db.users.next row s.db.users.rows,
            )
      ]

  pub edit_user-Evolves :
      (r : Request) (f : UserForm) (s : Backend) → Evolves x s (edit_user r f s).1
  unfolding edit_user validate_create_user
  edit_user-Evolves r f s = elim (Option-cases (current_id r)) [
    | inl e ↦ ground (arith, same-Evolves x s.db.users.rows)
    | inr (id, e) ↦
        let form = record f { id = some id } in
        elim (Result-cases (get_email form, s)) [
          | inr (e', t, q) ↦
              ground (arith, same-Evolves x s.db.users.rows, check_user-state form true s)
          | inl (email, t, q) ↦ ground (
            arith,
            same-Evolves x s.db.users.rows,
            check_user-state form true s,
            keep-Evolves x id (edited form email r.now) s.db.users.rows (λ _. refl),
          )
        ]
  ]
