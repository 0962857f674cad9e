-- ===== src/Users/Providers.antt =====
-- `linkExternalProvider` and `unlinkExternalProvider` of service/user/ExternalProviderService.java.
pub mod Links
use graffi_tab_backend.Prelude.{
  ℕ, Bool, false, not, Option, none, some, [], ◌∷◌, ◌++◌, ◌==◌, filter, is_some,
}
use graffi_tab_backend.Prelude.Text.{Text}
use graffi_tab_backend.Errors.{
  external_provider_already_linked, external_provider_already_linked_for_other_user,
  external_provider_not_found, invalid_token, rest,
}
use graffi_tab_backend.Model.Account.{User, ExternalProvider, ExternalProviderType, type_eq}
use graffi_tab_backend.Backend.{Action, pure, throw_if, of_result, or_throw, modify, ◌>>=◌, ◌>>◌}
use graffi_tab_backend.Backend.Transactions.{in_transaction}
use graffi_tab_backend.Backend.Lookup.{
  update_user, find_user_by_id, deref, Request, get_current_user,
}
use graffi_tab_backend.Users.Registration.{find_user_with_external_provider}
use graffi_tab_backend.Users.Logins.Filters.{find_external_provider}

-- `ExternalProvider.provider(type, externalUserId, accessToken)`, added to the user's.
abbrev pub add_provider : ExternalProviderType → Text → Text → User → User
add_provider type external_id token u = record u {
  external_providers =
      u.external_providers
      ++ record {
        external_provider_type = type;
        external_user_id = external_id;
        access_token = token;
      }
        ∷ [];
}

-- `getExternalProviders().remove(externalProvider)`, of the one of the type.
abbrev pub remove_provider : ExternalProviderType → User → User
remove_provider type u = record u {
  external_providers =
      filter (λ e. not (type_eq e.external_provider_type type)) u.external_providers;
}

-- `otherUser != null && !currentUser.equals(otherUser)`
abbrev is_other : ℕ → Option (ℕ × User) → Bool
is_other current none = false
is_other current (some (id, u)) = not (current == id)

-- `linkExternalProvider`; `isValidToken` asks the provider's service.
module _ (is_valid_token : Text → ExternalProviderType → Bool) where
  unfoldable pub link_external_provider : Request → ExternalProviderType → Text → Text → Action ℕ
  unfolding in_transaction
  link_external_provider r type external_id token = in_transaction do
    current ← get_current_user r
    found ← find_user_by_id current
    user ← deref found
    linked ← of_result (find_external_provider type user)
    throw_if (is_some linked) (rest external_provider_already_linked)
    other ← find_user_with_external_provider type external_id
    throw_if (is_other current other) (rest external_provider_already_linked_for_other_user)
    throw_if (not (is_valid_token token type)) (rest invalid_token)
    modify (update_user current (add_provider type external_id token))
    pure current

-- `unlinkExternalProvider`
unfoldable pub unlink_external_provider : Request → ExternalProviderType → Action ℕ
unfolding in_transaction
unlink_external_provider r type = in_transaction do
  current ← get_current_user r
  found ← find_user_by_id current
  user ← deref found
  linked ← of_result (find_external_provider type user)
  or_throw linked (rest external_provider_not_found)
  modify (update_user current (remove_provider type))
  pure current
