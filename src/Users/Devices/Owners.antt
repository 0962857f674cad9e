-- ===== src/Users/Devices/Owners.antt =====
-- Whose devices they are, for DeviceService.
use graffi_tab_backend.Prelude.{
  ℕ, ◌+◌, ◌≤◌, ◌≡◌, refl, inl, inr, true, some, List, [], ◌∷◌, ◌++◌, ◌==◌, filter, length,
  length-append, find, update, arith, if◌then◌else◌, Option-cases, Bool-cases,
}
use graffi_tab_backend.Prelude.Text.{text_eq_iff}
use graffi_tab_backend.Model.Account.{User, Device, OsType}
use graffi_tab_backend.Backend.{Backend}
use graffi_tab_backend.Backend.Lookup.{Request, current_id, unique_result}
use graffi_tab_backend.Backend.Lookup.Laws.{Query-cases, unique_result-eq-none}
use graffi_tab_backend.Users.Devices.{
  os_eq, device_eq, devices_like, add_device, remove_first, remove_device, register_device,
  unregister_device,
}

-- No token of a system is registered twice, be it for one user or for two.
abbrev pub IsOwnedOnce : List (ℕ × User) → Type 0
IsOwnedOnce t = (d : Device) → length (devices_like d t) ≤ 1

device_eq_sound :
    (d e : Device) → device_eq d e ≡ true → (d.token ≡ e.token) × (d.os_type ≡ e.os_type)
device_eq_sound d e h =
    (ground (arith, text_eq_iff d.token e.token), same d.os_type e.os_type (ground arith))
  where
    same : (a b : OsType) → os_eq a b ≡ true → a ≡ b
    same a b h = ground arith

length-filter-add :
    (d e : Device) (l : List Device)
    → length (filter (device_eq d) (l ++ e ∷ []))
      ≡ length (filter (device_eq d) l) + (if device_eq d e then 1 else 0)
length-filter-add d e [] = ground arith
length-filter-add d e (x ∷ l) = ground (arith, length-filter-add d e l)

length-devices-add :
    (d e : Device) (k : ℕ) (t : List (ℕ × User)) {u : User}
    → find k t ≡ some u
    → length (devices_like d (update k (add_device e) t))
      ≡ length (devices_like d t) + (if device_eq d e then 1 else 0)
length-devices-add d e k [] h = cc
length-devices-add d e k ((j, v) ∷ t) {u} h = elim (Bool-cases (k == j)) [
  | inl same ↦ ground (
    arith,
    length-append (filter (device_eq d) (v.devices ++ e ∷ [])) (devices_like d t),
    length-append (filter (device_eq d) v.devices) (devices_like d t),
    length-filter-add d e v.devices,
  )
  | inr other ↦ ground (
    arith,
    length-append (filter (device_eq d) v.devices) (devices_like d (update k (add_device e) t)),
    length-append (filter (device_eq d) v.devices) (devices_like d t),
    length-devices-add d e k t {u = u},
  )
]

length-filter-remove :
    (d e : Device) (l : List Device)
    → length (filter (device_eq d) (remove_first e l)) ≤ length (filter (device_eq d) l)
length-filter-remove d e [] = omega arith
length-filter-remove d e (x ∷ l) = ground (arith, length-filter-remove d e l)

length-devices-remove :
    (d e : Device) (k : ℕ) (t : List (ℕ × User))
    → length (devices_like d (update k (remove_device e) t)) ≤ length (devices_like d t)
length-devices-remove d e k [] = omega arith
length-devices-remove d e k ((j, v) ∷ t) = elim (Bool-cases (k == j)) [
  | inl same ↦ ground (
    arith,
    length-append (filter (device_eq d) (remove_first e v.devices)) (devices_like d t),
    length-append (filter (device_eq d) v.devices) (devices_like d t),
    length-filter-remove d e v.devices,
  )
  | inr other ↦ ground (
    arith,
    length-append (filter (device_eq d) v.devices) (devices_like d (update k (remove_device e) t)),
    length-append (filter (device_eq d) v.devices) (devices_like d t),
    length-devices-remove d e k t,
  )
]

devices_like-same :
    (d e : Device) (t : List (ℕ × User))
    → (d.token ≡ e.token) × (d.os_type ≡ e.os_type)
    → devices_like d t ≡ devices_like e t
devices_like-same d e t (p, q) = rw (p, q) refl

register-IsOwnedOnce :
    (r : Request) (e : Device) (s : Backend)
    → IsOwnedOnce s.db.users.rows
    → IsOwnedOnce (register_device r e s).1.db.users.rows
unfolding register_device
register-IsOwnedOnce r e s once d =
    elim (Query-cases (unique_result (devices_like e s.db.users.rows))) [
      | inr (inr (f, q)) ↦ ground (arith, once d)
      | inr (inl (x, q)) ↦ elim (Option-cases (current_id r)) [
        | inl c ↦ ground (arith, once d)
        | inr (a, c) ↦ elim (Option-cases (find a s.db.users.rows)) [
          | inl h ↦ ground (arith, once d)
          | inr (u, h) ↦ ground (arith, once d)
        ]
      ]
      | inl q ↦ elim (Option-cases (current_id r)) [
        | inl c ↦ ground (arith, once d)
        | inr (a, c) ↦ elim (Option-cases (find a s.db.users.rows)) [
          | inl h ↦ ground (arith, once d)
          | inr (u, h) ↦
              let rows = s.db.users.rows in
              let absent : devices_like e rows ≡ [] =
                unique_result-eq-none (devices_like e rows) q in
              let added = length-devices-add d e a rows {u = u} h in
              elim (Bool-cases (device_eq d e)) [
                | inl same ↦
                    let alike = devices_like-same d e rows (device_eq_sound d e same) in
                    ground (arith, added)
                | inr other ↦ ground (arith, added, once d)
              ]
        ]
      ]
    ]

unregister-IsOwnedOnce :
    (r : Request) (e : Device) (s : Backend)
    → IsOwnedOnce s.db.users.rows
    → IsOwnedOnce (unregister_device r e s).1.db.users.rows
unfolding unregister_device
unregister-IsOwnedOnce r e s once d =
    elim (Query-cases (unique_result (devices_like e s.db.users.rows))) [
      | inr (inr (f, q)) ↦ ground (arith, once d)
      | inl q ↦ elim (Option-cases (current_id r)) [
        | inl c ↦ ground (arith, once d)
        | inr (a, c) ↦ elim (Option-cases (find a s.db.users.rows)) [
          | inl h ↦ ground (arith, once d)
          | inr (u, h) ↦ ground (arith, once d)
        ]
      ]
      | inr (inl (x, q)) ↦ elim (Option-cases (current_id r)) [
        | inl c ↦ ground (arith, once d)
        | inr (a, c) ↦ elim (Option-cases (find a s.db.users.rows)) [
          | inl h ↦ ground (arith, once d)
          | inr (u, h) ↦ ground (arith, once d, length-devices-remove d e a s.db.users.rows)
        ]
      ]
    ]

-- Where every token of a system is registered once at most, counted over all users, registering
-- a device and unregistering one keep it so, whether they return or throw.
pub devices-IsOwnedOnce :
    (r : Request) (d : Device) (s : Backend)
    → IsOwnedOnce s.db.users.rows
    → IsOwnedOnce (register_device r d s).1.db.users.rows
      × IsOwnedOnce (unregister_device r d s).1.db.users.rows
devices-IsOwnedOnce r d s once =
    (register-IsOwnedOnce r d s once, unregister-IsOwnedOnce r d s once)
