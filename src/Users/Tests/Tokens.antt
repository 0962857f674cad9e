-- ===== src/Users/Tests/Tokens.antt =====
-- Activations and resets of the test accounts.
use graffi_tab_backend.Prelude.{some, not, ◌==◌, filter, update, ◌≡◌, refl, ◌≢◌, [], update}
use graffi_tab_backend.Prelude.Text.{codes}
use graffi_tab_backend.Errors.{ok}
use graffi_tab_backend.Model.Account.{
  active, pending_activation, reset_password, activation_token, activation_token_date,
  reset_password_token, reset_password_token_date,
}
use graffi_tab_backend.Backend.{Backend}
use graffi_tab_backend.Backend.Lookup.{update_user}
use graffi_tab_backend.Users.Tokens.{
  activate_user, check_token, complete_password_reset, activation_token_expiration_ms,
  reset_password_token_expiration_ms,
}
use graffi_tab_backend.Users.Tokens.Lifecycle.{
  HasUser, Opens, activate_user_sound, activate_user_once, complete_password_reset_sound,
}
use graffi_tab_backend.Samples.{encoder, users, start, as_ann, users-IsKeyed}

abbrev activated : Backend
activated = (activate_user (codes "t") 5000 start).1

activate_user_sound_example :
    HasUser 2
      (Opens activation_token activation_token_date activation_token_expiration_ms
        pending_activation
        (codes "t")
        5000)
      start.db
    × (activated.db ≡ update_user 2 (λ u. record u { account_status = active }) start.db)
unfolding activate_user check_token
activate_user_sound_example =
    activate_user_sound (codes "t") 5000 start activated {id = 2} users-IsKeyed refl

activate_user_once_example : (activate_user (codes "t") 6000 activated).0 ≢ ok 2
unfolding activate_user check_token
activate_user_once_example =
    activate_user_once (codes "t") 5000 6000 start activated {id = 2} 2 users-IsKeyed refl

abbrev reset : Backend
reset = (complete_password_reset encoder as_ann (codes "r") (codes "new") [] start).1

complete_password_reset_sound_example :
    HasUser 3
      (Opens reset_password_token reset_password_token_date reset_password_token_expiration_ms
        reset_password
        (codes "r")
        2000)
      start.db
    × (reset.db.users.rows
        ≡ update 3
            (λ u. record u {
              account_status = active;
              password = encoder.encode [] (codes "new");
              failed_logins = some 0;
            })
            users)
    × (reset.db.sessions ≡ filter (λ x. not (x.user == 3)) start.db.sessions)
    × (reset.mails ≡ start.mails)
    × (reset.jobs ≡ start.jobs)
unfolding complete_password_reset check_token
complete_password_reset_sound_example =
    complete_password_reset_sound encoder as_ann (codes "r") (codes "new") [] start reset {id = 3}
      users-IsKeyed refl
