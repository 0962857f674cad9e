-- ===== src/Users/Commands.antt =====
-- The operations of UserService on accounts as commands, and histories of them.
pub mod Statuses
use graffi_tab_backend.Prelude.{ℕ, Bool, List, [], ◌∷◌}
use graffi_tab_backend.Prelude.Text.{Text}
use graffi_tab_backend.Model.Account.{ExternalProviderType}
use graffi_tab_backend.Backend.{Backend}
use graffi_tab_backend.Backend.Lookup.{Request}
use graffi_tab_backend.Users.Validation.{UserForm}
use graffi_tab_backend.Users.Registration.{
  PasswordEncoder, Drawn, create_user, create_external_user, edit_user,
}
use graffi_tab_backend.Users.Tokens.{
  activate_user, reset_password_of, complete_password_reset, change_password,
}
use graffi_tab_backend.Users.Logins.{update_login_attempts, reset_login_attempts}
use graffi_tab_backend.Users.Following.{Client, follow, unfollow}
use graffi_tab_backend.Users.Invariant.{IsValid}
use graffi_tab_backend.Users.Invariant.Steps.{
  Keeps, activate_user-IsValid, reset_password_of-IsValid, complete_password_reset-IsValid,
  change_password-IsValid, update_login_attempts-IsValid, reset_login_attempts-IsValid,
  follow-IsValid, unfollow-IsValid,
}
use graffi_tab_backend.Users.Invariant.Registering.{
  create_user-IsValid, create_external_user-IsValid, edit_user-IsValid,
}

-- What the program takes from outside: the encoder, the providers' answer to a token, and the
-- property `registration.immediateActivation`.
pub record Outside : Type 0 where
  pub encoder : PasswordEncoder
  pub is_valid_token : Text → ExternalProviderType → Bool
  pub immediate_activation : Bool

-- A call of `UserService` that may change accounts, with its arguments and what it draws.
pub data Command : Type 0 where
  creates : UserForm → Drawn → ℕ → Command
  creates_external : UserForm → Drawn → Text → Text → ExternalProviderType → ℕ → Command
  edits : Request → UserForm → Command
  activates : Text → ℕ → Command
  asks_reset : Text → Text → ℕ → Command
  completes_reset : Request → Text → Text → Text → Command
  changes_password : Request → Text → Text → Text → Command
  fails_login counts_from_zero : Text → Command
  follows unfollows : Request → Client → ℕ → Command

module _ (o : Outside) where
  -- The state after a call, whether it returns or throws.
  pub run : Command → Backend → Backend
  run (creates f d now) s = (create_user o.encoder o.immediate_activation f d now s).1
  run (creates_external f d id token type now) s =
      (create_external_user o.encoder o.is_valid_token f d id token type now s).1
  run (edits r f) s = (edit_user r f s).1
  run (activates token now) s = (activate_user token now s).1
  run (asks_reset email token now) s = (reset_password_of email token now s).1
  run (completes_reset r token new salt) s =
      (complete_password_reset o.encoder r token new salt s).1
  run (changes_password r old new salt) s = (change_password o.encoder r old new salt s).1
  run (fails_login name) s = (update_login_attempts name s).1
  run (counts_from_zero name) s = (reset_login_attempts name s).1
  run (follows r c id) s = (follow r c id s).1
  run (unfollows r c id) s = (unfollow r id s).1

  pub run-IsValid : (c : Command) (s : Backend) → Keeps s (run c s)
  unfolding run
  run-IsValid (creates f d now) s = create_user-IsValid o.encoder o.immediate_activation f d now s
  run-IsValid (creates_external f d id token type now) s =
      create_external_user-IsValid o.encoder o.is_valid_token f d id token type now s
  run-IsValid (edits r f) s = edit_user-IsValid r f s
  run-IsValid (activates token now) s = activate_user-IsValid token now s
  run-IsValid (asks_reset email token now) s = reset_password_of-IsValid email token now s
  run-IsValid (completes_reset r token new salt) s =
      complete_password_reset-IsValid o.encoder r token new salt s
  run-IsValid (changes_password r old new salt) s =
      change_password-IsValid o.encoder r old new salt s
  run-IsValid (fails_login name) s = update_login_attempts-IsValid name s
  run-IsValid (counts_from_zero name) s = reset_login_attempts-IsValid name s
  run-IsValid (follows r c id) s = follow-IsValid r c id s
  run-IsValid (unfollows r c id) s = unfollow-IsValid r id s

  pub run_all : List Command → Backend → Backend
  unfolding run
  run_all [] s = s
  run_all (c ∷ cs) s = run_all cs (run c s)

  -- From a table of users where no two accounts share an id, a username or an e-mail address,
  -- every id is below the next to be given, and nobody follows themselves or the same user twice,
  -- any sequence of calls, each run to its end whether it returns or throws, leads to such a table.
  pub run_all-IsValid :
      (cs : List Command) (s : Backend) → IsValid s.db.users → IsValid (run_all cs s).db.users
  unfolding run_all
  run_all-IsValid [] s v = v
  run_all-IsValid (c ∷ cs) s v = run_all-IsValid cs (run c s) (run-IsValid c s v)
