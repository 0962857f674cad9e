-- ===== src/Users/Logins.antt =====
-- The login attempts of service/user/UserService.java, and the filters of api/authentication
-- that count them.
pub mod Filters
pub mod Lockout
use graffi_tab_backend.Prelude.{ℕ, ◌+◌, Bool, true, false, Option, none, some, leb, if◌then◌else◌}
use graffi_tab_backend.Prelude.Text.{Text, text_eq, contains_code, to_lower_case}
use graffi_tab_backend.Errors.{maximum_login_attempts, rest}
use graffi_tab_backend.Model.Account.{reset_password, User}
use graffi_tab_backend.Backend.{Action, pure, throw, throw_if, modify, ◌>>◌, ◌>>=◌}
use graffi_tab_backend.Backend.Transactions.{in_transaction, in_transaction_with_result}
use graffi_tab_backend.Backend.Lookup.{unique_user, update_user, deref}

-- `findByUsernameOrEmail`
abbrev pub find_by_username_or_email : Text → Action (Option (ℕ × User))
find_by_username_or_email name =
    if contains_code b'@' name
    then unique_user (λ _ u. text_eq u.email (to_lower_case name))
    else unique_user (λ _ u. text_eq u.username name)

-- A null counter counts as zero.
abbrev pub attempts : Option ℕ → ℕ
attempts none = 0
attempts (some n) = n

abbrev pub locked : User → User
locked u = record u { account_status = reset_password }

abbrev pub failed_once : ℕ → User → User
failed_once failed u = record u { failed_logins = some (failed + 1) }

abbrev pub no_failures : User → User
no_failures u = record u { failed_logins = some 0 }

abbrev lock_account : ℕ → Action Bool
lock_account id = modify (update_user id locked) >> pure true

abbrev count_failure : ℕ → ℕ → Action Bool
count_failure id failed = modify (update_user id (failed_once failed)) >> pure false

-- The transaction of `updateLoginAttempts`; its result tells whether the account was locked.
abbrev pub count_attempt : Text → Action Bool
count_attempt name = do
  found ← find_by_username_or_email name
  user ← deref found
  let failed = attempts user.1.failed_logins
  if leb 5 failed then lock_account user.0 else count_failure user.0 failed

-- `updateLoginAttempts`
unfoldable pub update_login_attempts : Text → Action (Unit {0})
unfolding in_transaction_with_result
update_login_attempts name = do
  suspended ← in_transaction_with_result (count_attempt name)
  throw_if suspended (rest maximum_login_attempts)

-- `resetLoginAttempts`
unfoldable pub reset_login_attempts : Text → Action (Unit {0})
unfolding in_transaction
reset_login_attempts name = in_transaction do
  found ← find_by_username_or_email name
  user ← deref found
  modify (update_user user.0 no_failures)
