-- ===== src/Users/Registration.antt =====
-- `createUser` and `createExternalUser` of service/user/UserService.java.
pub mod Race
use graffi_tab_backend.Prelude.{
  ℕ, ◌+◌, Bool, true, false, not, Option, none, some, [], ◌∷◌, ◌++◌, is_some, any, ◌&&◌,
  if◌then◌else◌,
}
use graffi_tab_backend.Prelude.Text.{Text, text_eq}
use graffi_tab_backend.Errors.{
  invalid_id, invalid_token, external_provider_already_linked_for_other_user, rest,
}
use graffi_tab_backend.Model.{Database}
use graffi_tab_backend.Model.Account.{
  AccountStatus, active, pending_activation, User, ExternalProviderType, type_eq, activation_token,
  activation_token_date, text, millis, put,
}
use graffi_tab_backend.Model.Content
use graffi_tab_backend.Backend.{
  Backend, Action, add_notification, send, enqueue, modify, pure, throw, throw_if, gets, of_result,
  ◌>>◌, ◌>>=◌,
}
use graffi_tab_backend.Backend
use graffi_tab_backend.Backend.Transactions.{in_transaction, in_transaction_with_result}
use graffi_tab_backend.Backend.Lookup.{
  unique_user, find_user_by_id, update_user, deref, Request, get_current_user,
}
use graffi_tab_backend.Users.Validation.{UserForm, or_blank, get_email, validate_create_user}

-- Spring's `PasswordEncoder`, BCrypt in this program: `encode` draws a salt, here an argument.
pub record PasswordEncoder : Type 0 where
  pub encode : Text → Text → Text
  pub accepts : Text → Text → Bool

-- The random texts of one request: two guids, and the salt of an encoding.
pub record Drawn : Type 0 where
  pub guid : Text
  pub token : Text
  pub salt : Text

-- `userDao.persist(user)`: the row gets the next id.
abbrev pub persist_user : User → Database → Database
persist_user u d = record d {
  users = record { rows = d.users.rows ++ (d.users.next, u) ∷ []; next = d.users.next + 1 };
}

-- The form as a row, with what the service sets: the guid, the status and the metadata.
abbrev pub new_user : UserForm → Text → Text → Text → AccountStatus → ℕ → User
new_user f guid password email status now = record {
  guid = guid;
  username = or_blank f.username;
  first_name = or_blank f.first_name;
  last_name = or_blank f.last_name;
  password = password;
  email = email;
  website = f.website;
  about = f.about;
  created_on = now;
  updated_on = none;
  failed_logins = none;
  account_status = status;
  is_recommendation = false;
  recommendation_rank = 0;
  avatar_asset = none;
  cover_asset = none;
  following = [];
  devices = [];
  external_providers = [];
  metadata_items = [];
}

-- `notificationService.addWelcomeNotification(user, false)`
abbrev pub add_welcome_notification : ℕ → ℕ → Action (Unit {0})
add_welcome_notification id now = enqueue (add_notification id Content.welcome now)

module _ (encoder : PasswordEncoder) (immediate_activation : Bool) where
  -- The row that `createUser` persists.
  abbrev pub registered : UserForm → Drawn → Text → ℕ → User
  registered f drawn email now =
      let status = if immediate_activation then active else pending_activation in
      let user =
        new_user f drawn.guid (encoder.encode drawn.salt (or_blank f.password)) email status now in
      record user {
        metadata_items =
            put activation_token_date (millis now) (put activation_token (text drawn.token) []);
      }

  -- The mail and the notification that follow the commit.
  abbrev pub greet : ℕ → User → Text → ℕ → Action (Unit {0})
  greet id user token now =
      if immediate_activation
      then (send (Backend.welcome_external user.email) >> add_welcome_notification id now)
      else send (Backend.welcome user.email token)

  -- What `createUser` does once the validation has returned, in a transaction of its own.
  abbrev pub register_validated : UserForm → Drawn → ℕ → Action ℕ
  register_validated f drawn now = do
    throw_if (is_some f.id) (rest invalid_id)
    email ← of_result (get_email f)
    let user = registered f drawn email now
    id ←
        in_transaction_with_result
          do id ← gets (λ d. d.users.next); modify (persist_user user); pure id
    greet id user drawn.token now
    pure id

  -- `createUser`; its result is the id of the new row.
  unfoldable pub create_user : UserForm → Drawn → ℕ → Action ℕ
  unfolding in_transaction_with_result
  create_user f drawn now = do validate_create_user f false; register_validated f drawn now

-- `User.findUserWithExternalProvider`
abbrev pub has_provider : ExternalProviderType → Text → User → Bool
has_provider type external_id u =
    any (λ e. type_eq e.external_provider_type type && text_eq e.external_user_id external_id)
      u.external_providers

-- `findUserWithExternalProvider`
abbrev pub find_user_with_external_provider :
    ExternalProviderType → Text → Action (Option (ℕ × User))
find_user_with_external_provider type external_id = unique_user (λ _. has_provider type external_id)

module _ (encoder : PasswordEncoder) (is_valid_token : Text → ExternalProviderType → Bool) where
  abbrev pub registered_external :
      UserForm → Drawn → Text → ExternalProviderType → Text → Text → ℕ → User
  registered_external f drawn email type external_id access_token now =
      record (new_user f drawn.guid (encoder.encode drawn.salt drawn.token) email active now) {
        external_providers =
            record {
              external_provider_type = type;
              external_user_id = external_id;
              access_token = access_token;
            }
            ∷ [];
      }

  -- `createExternalUser`; the password is the encoding of a random one, here `drawn.token`, and
  -- `isValidToken` asks the provider's service.
  unfoldable pub create_external_user :
      UserForm → Drawn → Text → Text → ExternalProviderType → ℕ → Action ℕ
  unfolding in_transaction_with_result
  create_external_user f drawn external_id access_token type now = do
    let form = record f { password = some (encoder.encode drawn.salt drawn.token) }
    validate_create_user form false
    throw_if (is_some f.id) (rest invalid_id)
    linked ← in_transaction_with_result (find_user_with_external_provider type external_id)
    throw_if (is_some linked) (rest external_provider_already_linked_for_other_user)
    throw_if (not (is_valid_token access_token type)) (rest invalid_token)
    email ← of_result (get_email form)
    let user = registered_external form drawn email type external_id access_token now
    id ←
        in_transaction_with_result
          do id ← gets (λ d. d.users.next); modify (persist_user user); pure id
    send (Backend.welcome_external user.email)
    add_welcome_notification id now
    pure id

-- The fields that `editUser` copies.
abbrev pub edited : UserForm → Text → ℕ → User → User
edited f email now u = record u {
  updated_on = some now;
  first_name = or_blank f.first_name;
  last_name = or_blank f.last_name;
  email = email;
  about = f.about;
  website = f.website;
}

-- `editUser`, where the current user is the managed instance of the transaction.
unfoldable pub edit_user : Request → UserForm → Action ℕ
unfolding in_transaction
edit_user r f = in_transaction do
  id ← get_current_user r
  found ← find_user_by_id id
  deref found
  let to_edit = record f { id = some id }
  validate_create_user to_edit true
  email ← of_result (get_email to_edit)
  modify (update_user id (edited to_edit email r.now))
  pure id
