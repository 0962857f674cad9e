-- ===== src/Users/Tokens.antt =====
-- The operations of service/user/UserService.java that a token or a password opens:
-- `activateUser`, `resetPassword`, `completePasswordReset` and `changePassword`.
pub mod Lifecycle
use graffi_tab_backend.Prelude.{ℕ, ◌+◌, ◌*◌, Bool, true, false, not, Option, none, some, ltb, find}
use graffi_tab_backend.Prelude.Text.{Text, text_eq}
use graffi_tab_backend.Errors.{
  user_not_found, token_not_found, token_expired, user_not_in_expected_state, incorrect_password,
  rest, number_format, Result, ok, err,
}
use graffi_tab_backend.Model.Account.{
  AccountStatus, active, pending_activation, reset_password, status_eq, User, MetadataKey,
  MetadataValue, text, millis, activation_token, activation_token_date, reset_password_token,
  reset_password_token_date, get, put, Metadata,
}
use graffi_tab_backend.Backend.{
  Backend, Action, send, pure, throw, throw_if, of_result, or_throw, modify, ◌>>=◌, ◌>>◌,
}
use graffi_tab_backend.Backend
use graffi_tab_backend.Backend.Transactions.{in_transaction, in_transaction_with_result}
use graffi_tab_backend.Backend.Lookup.{
  unique_user, update_user, find_user_by_id, deref, Request, get_current_user,
}
use graffi_tab_backend.Sessions.{logout_everywhere}
use graffi_tab_backend.Users.Registration.{PasswordEncoder, add_welcome_notification}

-- A day and half an hour, in milliseconds.
abbrev pub activation_token_expiration_ms : ℕ
activation_token_expiration_ms = 24 * 60 * 60 * 1000

abbrev pub reset_password_token_expiration_ms : ℕ
reset_password_token_expiration_ms = 30 * 60 * 1000

abbrev pub holds : Text → Option MetadataValue → Bool
holds value none = false
holds value (some (text t)) = text_eq t value
holds value (some (millis n)) = false

-- `User.findUsersWithMetadataValues`; it is asked for the token keys, whose values are texts.
abbrev pub find_users_with_metadata_values : MetadataKey → Text → Action (Option (ℕ × User))
find_users_with_metadata_values key value =
    unique_user (λ _ u. holds value (get key u.metadata_items))

-- `Long.parseLong(metadataItems.get(key))`
abbrev pub parse_long : Option MetadataValue → Result ℕ
parse_long none = err number_format
parse_long (some (text t)) = err number_format
parse_long (some (millis n)) = ok n

-- `(now - tokenDate) > limit`
abbrev pub is_expired : ℕ → ℕ → ℕ → Bool
is_expired now date limit = ltb (date + limit) now

-- The checks that `activateUser` and `completePasswordReset` share, in their order: the token's
-- owner, its age, and the status of the account.
unfoldable pub check_token :
    MetadataKey → MetadataKey → ℕ → AccountStatus → Text → ℕ → Action (ℕ × User)
check_token key date_key limit status token now = do
  found ← find_users_with_metadata_values key token
  owner ← or_throw found (rest token_not_found)
  date ← of_result (parse_long (get date_key owner.1.metadata_items))
  throw_if (is_expired now date limit) (rest token_expired)
  throw_if (not (status_eq owner.1.account_status status)) (rest user_not_in_expected_state)
  pure owner

abbrev pub activation_check : Text → ℕ → Action (ℕ × User)
activation_check =
    check_token activation_token activation_token_date activation_token_expiration_ms
      pending_activation

abbrev pub reset_check : Text → ℕ → Action (ℕ × User)
reset_check =
    check_token reset_password_token reset_password_token_date reset_password_token_expiration_ms
      reset_password

-- `activateUser`
unfoldable pub activate_user : Text → ℕ → Action ℕ
unfolding in_transaction_with_result
activate_user token now = do
  id ← in_transaction_with_result do
    owner ← activation_check token now
    modify (update_user owner.0 (λ u. record u { account_status = active }))
    pure owner.0
  add_welcome_notification id now
  pure id

abbrev pub asked_reset : Text → ℕ → User → User
asked_reset token now u = record u {
  account_status = reset_password;
  metadata_items =
      put reset_password_token_date (millis now)
        (put reset_password_token (text token) u.metadata_items);
}

-- `resetPassword`; the token is drawn before the transaction.
unfoldable pub reset_password_of : Text → Text → ℕ → Action ℕ
unfolding in_transaction_with_result
reset_password_of email token now = do
  id ← in_transaction_with_result do
    found ← unique_user (λ _ u. text_eq u.email email)
    owner ← or_throw found (rest user_not_found)
    modify (update_user owner.0 (asked_reset token now))
    pure owner.0
  send (Backend.reset_password email token)
  pure id

module _ (encoder : PasswordEncoder) where
  abbrev pub recovered : Text → Text → User → User
  recovered salt new_password u = record u {
    account_status = active;
    password = encoder.encode salt new_password;
    failed_logins = some 0;
  }

  -- `completePasswordReset`
  unfoldable pub complete_password_reset : Request → Text → Text → Text → Action ℕ
  unfolding in_transaction logout_everywhere
  complete_password_reset r token new_password salt = in_transaction do
    owner ← reset_check token r.now
    modify (update_user owner.0 (recovered salt new_password))
    logout_everywhere r owner.0 false
    pure owner.0

  abbrev pub changed : Text → Text → ℕ → User → User
  changed salt new_password now u = record u {
    password = encoder.encode salt new_password;
    updated_on = some now;
    failed_logins = some 0;
  }

  -- `changePassword`, where the current user is the managed instance of the transaction.
  unfoldable pub change_password : Request → Text → Text → Text → Action ℕ
  unfolding in_transaction logout_everywhere
  change_password r current_password new_password salt = in_transaction do
    id ← get_current_user r
    found ← find_user_by_id id
    user ← deref found
    throw_if (not (encoder.accepts current_password user.password)) (rest incorrect_password)
    modify (update_user id (changed salt new_password r.now))
    logout_everywhere r id true
    pure id
