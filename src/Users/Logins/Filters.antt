-- ===== src/Users/Logins/Filters.antt =====
-- JsonLoginAuthenticationFilter, ExternalProviderAuthenticationFilter, the listener of failed
-- logins and the success handler, of api/authentication.
use graffi_tab_backend.Prelude.{
  ℕ, Bool, not, ◌&&◌, Option, none, some, List, [], ◌∷◌, filter, if◌then◌else◌,
}
use graffi_tab_backend.Prelude.Text.{Text}
use graffi_tab_backend.Errors.{
  ResultCode, user_not_in_expected_state, invalid_token, rest, Result, ok, err,
}
use graffi_tab_backend.Model.Account.{
  active, status_eq, User, ExternalProvider, ExternalProviderType, type_eq,
}
use graffi_tab_backend.Backend.{Action, pure, when, of_result, modify, ◌>>◌, ◌>>=◌}
use graffi_tab_backend.Backend.Transactions.{in_transaction}
use graffi_tab_backend.Backend.Lookup.{update_user, find_user_by_id, deref, unique_result, Request}
use graffi_tab_backend.Sessions.{save_or_update_session_data}
use graffi_tab_backend.Users.Registration.{PasswordEncoder, find_user_with_external_provider}
use graffi_tab_backend.Users.Logins.{
  find_by_username_or_email, update_login_attempts, reset_login_attempts,
}

-- The `AuthenticationException`s that the filters throw or let pass.
pub data Refusal : Type 0 where
  bad_credentials username_not_found internal_authentication_service : Refusal
  login_user_not_active : ResultCode → Refusal
  max_attempts : ResultCode → Refusal
  external_provider_token_invalid : ResultCode → Refusal

pub data Login : Type 0 where
  logged_in : ℕ → Login
  refused : Refusal → Login

-- `catch (RestApiException rae) { throw new MaximumLoginAttemptsException(msg, rae); }`
abbrev or_max_attempts : Action (Unit {0}) → Refusal → Action Login
or_max_attempts m refusal s =
    let (r, s') = m s in
    elim r [
      | ok _ ↦ (ok (refused refusal), s')
      | err (rest code) ↦ (ok (refused (max_attempts code)), s')
      | err e ↦ (err e, s')
    ]

-- `publishes` tells whether the authentication manager publishes an
-- `AuthenticationFailureBadCredentialsEvent`; `FailedLoginApplicationListener` counts it.
module _ (encoder : PasswordEncoder) (publishes : Bool) where
  -- `super.attemptAuthentication`: the manager compares the password with the stored one.
  abbrev authenticate : Text → Text → ℕ → User → Action Login
  authenticate name password id u =
      if encoder.accepts password u.password
      then pure (logged_in id)
      else (when publishes (update_login_attempts name) >> pure (refused bad_credentials))

  -- `attemptAuthenticationIfActiveUser`
  unfoldable pub attempt_if_active_user : Text → Text → Action Login
  unfolding update_login_attempts
  attempt_if_active_user name password = do
    found ← find_by_username_or_email name
    elim found [
      | none ↦ pure (refused username_not_found)
      | some (id, u) ↦
          if status_eq u.account_status active
          then authenticate name password id u
          else pure (refused (login_user_not_active user_not_in_expected_state))
    ]

  -- The inner `catch` of `attemptAuthentication`.
  abbrev count_bad_credentials : Text → Login → Action Login
  count_bad_credentials name (refused bad_credentials) =
      or_max_attempts (update_login_attempts name) bad_credentials
  count_bad_credentials name login = pure login

  -- `JsonLoginAuthenticationFilter.attemptAuthentication`
  unfoldable pub attempt_authentication : Option Text → Text → Action Login
  unfolding attempt_if_active_user update_login_attempts
  attempt_authentication none password = pure (refused bad_credentials)
  attempt_authentication (some name) password = do
    login ← attempt_if_active_user name password
    count_bad_credentials name login

-- `JsonResponseLoginSuccessHandler.onAuthenticationSuccess`, its background task included: the
-- session is stored where the handler stores sessions and backups are enabled.
unfoldable pub on_authentication_success :
    Bool → Bool → Request → Text → Text → Text → Action (Unit {0})
unfolding save_or_update_session_data reset_login_attempts
on_authentication_success store_session backups_enabled r session_id content username = do
  when (store_session && backups_enabled) (save_or_update_session_data r session_id content)
  reset_login_attempts username

abbrev set_token : ExternalProviderType → Text → List ExternalProvider → List ExternalProvider
set_token type token [] = []
set_token type token (e ∷ es) =
    (if type_eq e.external_provider_type type then record e { access_token = token } else e)
    ∷ set_token type token es

-- `findExternalProvider(user, type)`
abbrev pub find_external_provider : ExternalProviderType → User → Result (Option ExternalProvider)
find_external_provider type u =
    unique_result (filter (λ e. type_eq e.external_provider_type type) u.external_providers)

-- `ExternalProviderService.updateToken`
unfoldable pub update_token : ℕ → ExternalProviderType → Text → Action (Unit {0})
unfolding in_transaction
update_token id type token = in_transaction do
  found ← find_user_by_id id
  user ← deref found
  provider ← of_result (find_external_provider type user)
  deref provider
  modify (
      update_user id
        (λ u. record u { external_providers = set_token type token u.external_providers }))

-- `ExternalProviderAuthenticationFilter.attemptAuthentication`, on a payload with all its
-- fields; `isValidToken` asks the provider's service.
module _ (is_valid_token : Text → ExternalProviderType → Bool) where
  unfoldable pub attempt_external_authentication : Text → Text → ExternalProviderType → Action Login
  unfolding update_login_attempts update_token
  attempt_external_authentication external_id token type = do
    found ← find_user_with_external_provider type external_id
    elim found [
      | none ↦ pure (refused internal_authentication_service)
      | some (id, u) ↦
          if not (is_valid_token token type)
          then or_max_attempts (update_login_attempts u.username)
              (external_provider_token_invalid invalid_token)
          else if status_eq u.account_status active
          then (update_token id type token >> pure (logged_in id))
          else pure (refused (login_user_not_active user_not_in_expected_state))
    ]
