-- ===== src/Users/Devices.antt =====
-- service/user/DeviceService.java: the devices that receive the push notifications of a user.
pub mod Owners
use graffi_tab_backend.Prelude.{
  ℕ, Bool, true, false, ◌&&◌, Option, none, some, List, [], ◌∷◌, ◌++◌, filter, is_some,
  if◌then◌else◌,
}
use graffi_tab_backend.Prelude.Text.{text_eq}
use graffi_tab_backend.Model.Account.{User, Device, OsType, android, ios}
use graffi_tab_backend.Backend.{Action, pure, when, gets, of_result, modify, ◌>>=◌, ◌>>◌}
use graffi_tab_backend.Backend.Transactions.{in_transaction}
use graffi_tab_backend.Backend.Lookup.{
  unique_result, update_user, find_user_by_id, deref, Request, get_current_user,
}

abbrev pub os_eq : OsType → OsType → Bool
os_eq android android = true
os_eq ios ios = true
os_eq _ _ = false

abbrev pub device_eq : Device → Device → Bool
device_eq d e = text_eq d.token e.token && os_eq d.os_type e.os_type

-- `Device.findDevicesWithToken`: over the devices of every user.
abbrev pub devices_like : Device → List (ℕ × User) → List Device
devices_like d [] = []
devices_like d ((id, u) ∷ t) = filter (device_eq d) u.devices ++ devices_like d t

-- `findDevicesWithTokenAndType`
abbrev pub find_device : Device → Action (Option Device)
find_device d = do found ← gets (λ b. devices_like d b.users.rows); of_result (unique_result found)

abbrev pub add_device : Device → User → User
add_device d u = record u { devices = u.devices ++ d ∷ [] }

-- `getDevices().remove(device)`: the first that is equal.
abbrev pub remove_first : Device → List Device → List Device
remove_first d [] = []
remove_first d (e ∷ es) = if device_eq d e then es else e ∷ remove_first d es

abbrev pub remove_device : Device → User → User
remove_device d u = record u { devices = remove_first d u.devices }

-- `registerDevice`
unfoldable pub register_device : Request → Device → Action (Unit {0})
unfolding in_transaction
register_device r d = in_transaction do
  found ← find_device d
  id ← get_current_user r
  user ← find_user_by_id id
  deref user
  elim found [ none ↦ modify (update_user id (add_device d)) | some _ ↦ pure tt ]

-- `unregisterDevice`
unfoldable pub unregister_device : Request → Device → Action (Unit {0})
unfolding in_transaction
unregister_device r d = in_transaction do
  found ← find_device d
  id ← get_current_user r
  user ← find_user_by_id id
  deref user
  when (is_some found) (modify (update_user id (remove_device d)))
