-- ===== src/Users/Tests/Links.antt =====
-- Ann links a provider and registers a device.
use graffi_tab_backend.Prelude.{
  none, ◌≡◌, refl, Bool, true, some, [], ◌∷◌, ◌++◌, select, find, arith,
}
use graffi_tab_backend.Prelude.Text.{Text, codes}
use graffi_tab_backend.Model.Account.{User, facebook, ExternalProviderType, Device, ios}
use graffi_tab_backend.Users.Logins.Filters.{find_external_provider}
use graffi_tab_backend.Errors.{ok}
use graffi_tab_backend.Backend.{Backend}
use graffi_tab_backend.Backend.Lookup.{current_id, update_user}
use graffi_tab_backend.Samples.{users, start, as_ann, users-IsKeyed}
use graffi_tab_backend.Users.Registration.{has_provider}
use graffi_tab_backend.Users.Providers.{link_external_provider}
use graffi_tab_backend.Users.Providers.Links.{link_external_provider_sound}
use graffi_tab_backend.Users.Devices.{register_device, unregister_device}
use graffi_tab_backend.Users.Devices.Owners.{IsOwnedOnce, devices-IsOwnedOnce}

abbrev all_valid : Text → ExternalProviderType → Bool
all_valid token type = true

abbrev linked : Backend
linked = (link_external_provider all_valid as_ann facebook (codes "f") (codes "t") start).1

link_external_provider_sound_example :
    (current_id as_ann ≡ some 1)
    × ((u : User) × (find 1 users ≡ some u) × (find_external_provider facebook u ≡ ok none))
    × (select (λ _. has_provider facebook (codes "f")) users ≡ [])
    × (all_valid (codes "t") facebook ≡ true)
    × (linked.db
        ≡ update_user 1
            (λ u. record u {
              external_providers =
                  u.external_providers
                  ++ record {
                    external_provider_type = facebook;
                    external_user_id = codes "f";
                    access_token = codes "t";
                  }
                    ∷ [];
            })
            start.db)
unfolding link_external_provider current_id
link_external_provider_sound_example =
    link_external_provider_sound all_valid as_ann facebook (codes "f") (codes "t") start linked
      {id = 1} users-IsKeyed refl

abbrev phone : Device
phone = record { os_type = ios; token = codes "d" }

no_devices : IsOwnedOnce users
no_devices d = ground arith

devices-IsOwnedOnce_example :
    IsOwnedOnce (register_device as_ann phone start).1.db.users.rows
    × IsOwnedOnce (unregister_device as_ann phone start).1.db.users.rows
devices-IsOwnedOnce_example = devices-IsOwnedOnce as_ann phone start no_devices
