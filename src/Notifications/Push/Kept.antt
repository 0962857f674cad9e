-- ===== src/Notifications/Push/Kept.antt =====
-- Which devices a push notification leaves registered.
use graffi_tab_backend.Prelude.{
  ℕ, ◌≡◌, ◌≢◌, ◌∙◌, ◌⊎◌, refl, sym, inl, inr, Bool, true, false, ◌||◌, none, some, List, [], ◌∷◌,
  ◌++◌, any, All, filter, find, find-update, arith, Option-cases,
}
use graffi_tab_backend.Prelude.Text.{Text, text_eq_refl}
use graffi_tab_backend.Errors.{ok}
use graffi_tab_backend.Model.{Database}
use graffi_tab_backend.Model.Account.{User, Device, OsType}
use graffi_tab_backend.Model.Content.{NotificationKind}
use graffi_tab_backend.Backend.{Backend}
use graffi_tab_backend.Backend.Transactions.{in_transaction, in_transaction_with_result}
use graffi_tab_backend.Backend.Lookup.{update_user}
use graffi_tab_backend.Users.Devices.{os_eq, device_eq, remove_first, remove_device}
use graffi_tab_backend.Notifications.Push.{
  Delivery, delivered, failed, thrown, build_content_for_notification, send_to, send_notification,
}

abbrev pub devices_of : ℕ → Database → List Device
devices_of user d = elim (find user d.users.rows) [ none ↦ [] | some u ↦ u.devices ]

-- No device stands twice in the list.
abbrev pub IsDistinct : List Device → Type 0
IsDistinct [] = Unit
IsDistinct (d ∷ ds) = All (λ x. device_eq x d ≡ false) ds × IsDistinct ds

device_eq_refl : (d : Device) → device_eq d d ≡ true
device_eq_refl d = ground (arith, text_eq_refl d.token, same d.os_type)
  where
    same : (a : OsType) → os_eq a a ≡ true
    same a = ground arith

remove_first-append :
    (d : Device) (pre ds : List Device)
    → any (device_eq d) pre ≡ false
    → remove_first d (pre ++ d ∷ ds) ≡ pre ++ ds
remove_first-append d [] ds e = ground (arith, device_eq_refl d)
remove_first-append d (x ∷ pre) ds e = ground (arith, remove_first-append d pre ds)

any-append_one :
    (x d : Device) (pre : List Device)
    → any (device_eq x) (pre ++ d ∷ []) ≡ (any (device_eq x) pre || device_eq x d)
any-append_one x d [] = ground arith
any-append_one x d (y ∷ pre) = ground (arith, any-append_one x d pre)

-- None of the devices to come stands among those that are done.
abbrev IsApart : List Device → List Device → Type 0
IsApart pre = All (λ x. any (device_eq x) pre ≡ false)

IsApart-nil : (ds : List Device) → IsApart [] ds
IsApart-nil [] = tt
IsApart-nil (d ∷ ds) = (refl, IsApart-nil ds)

IsApart-append :
    (d : Device) (pre ds : List Device)
    → IsApart pre ds
    → All (λ x. device_eq x d ≡ false) ds
    → IsApart (pre ++ d ∷ []) ds
IsApart-append d pre [] a b = tt
IsApart-append d pre (x ∷ ds) (p, a) (q, b) =
    (ground (arith, any-append_one x d pre), IsApart-append d pre ds a b)

append-cons :
    (pre : List Device) (d : Device) (ds : List Device) → ((pre ++ d ∷ []) ++ ds) ≡ pre ++ d ∷ ds
append-cons [] d ds = refl
append-cons (x ∷ pre) d ds = ground (arith, append-cons pre d ds)

append-nil : (pre : List Device) → pre ++ [] ≡ pre
append-nil [] = refl
append-nil (x ∷ pre) = ground (arith, append-nil pre)

abbrev pub is_delivered : Delivery → Bool
is_delivered delivered = true
is_delivered _ = false

module _ (send_push : Text → Device → Delivery) (user : ℕ) (content : Text) where
  abbrev pub gets_it : Device → Bool
  gets_it d = is_delivered (send_push content d)

  send_to-devices :
      (pre ds : List Device) (s : Backend) {u : User}
      → ((d : Device) → send_push content d ≢ thrown)
      → find user s.db.users.rows ≡ some u
      → u.devices ≡ pre ++ ds
      → IsDistinct ds
      → IsApart pre ds
      → ((send_to send_push user content ds s).0 ≡ ok (filter gets_it ds))
        × (devices_of user (send_to send_push user content ds s).1.db ≡ pre ++ filter gets_it ds)
  unfolding send_to in_transaction
  send_to-devices pre [] s {u} t h e k a = (refl, ground (arith, append-nil pre))
  send_to-devices pre (d ∷ ds) s {u} t h e (k, ks) (a, b) =
      elim (Delivery-cases (send_push content d)) [
        | inl got ↦
            let rest =
              send_to-devices (pre ++ d ∷ []) ds s {u = u} t h (e ∙ sym (append-cons pre d ds)) ks
                (IsApart-append d pre ds b k) in
            ground (arith, rest, append-cons pre d (filter gets_it ds))
        | inr (inl lost) ↦
            let s1 : Backend = record s { db = update_user user (remove_device d) s.db } in
            let row : find user s1.db.users.rows ≡ some (remove_device d u) =
              ground (arith, find-update user user (remove_device d) s.db.users.rows) in
            let rest =
              send_to-devices pre ds s1 {u = remove_device d u} t row
                (ground (arith, remove_first-append d pre ds)) ks b in
            ground (arith, rest)
        | inr (inr bad) ↦ absurd (t d bad)
      ]
    where
      Delivery-cases : (x : Delivery) → (x ≡ delivered) ⊎ (x ≡ failed) ⊎ (x ≡ thrown)
      Delivery-cases delivered = inl refl
      Delivery-cases failed = inr (inl refl)
      Delivery-cases thrown = inr (inr refl)

send_to_others :
    (send_push : Text → Device → Delivery) (user : ℕ) (content : Text) (j : ℕ) (ds : List Device)
    (s : Backend)
    → j ≢ user
    → find j (send_to send_push user content ds s).1.db.users.rows ≡ find j s.db.users.rows
unfolding send_to in_transaction
send_to_others send_push user content j [] s n = refl
send_to_others send_push user content j (d ∷ ds) s n =
    let here = send_to_others send_push user content j ds s n in
    let s1 : Backend = record s { db = update_user user (remove_device d) s.db } in
    let there = send_to_others send_push user content j ds s1 n in
    let kept = find-update j user (remove_device d) s.db.users.rows in
    elim (Option-cases (find user s.db.users.rows)) [
      | inl gone ↦ ground (arith, here)
      | inr (u, known) ↦ ground (arith, here, there, kept)
    ]

-- Where the text of the notification can be built, no device of the user stands twice and no
-- service throws, the devices that the user has after a push notification are the ones to which it
-- was delivered, in their order, and the row of any other user is what it was.
pub send_notification-devices :
    (send_push : Text → Device → Delivery) (user j : ℕ) (kind : NotificationKind) (content : Text)
    (s : Backend) {u : User}
    → build_content_for_notification kind s ≡ (ok content, s)
    → find user s.db.users.rows ≡ some u
    → IsDistinct u.devices
    → ((d : Device) → send_push content d ≢ thrown)
    → j ≢ user
    → ((send_notification send_push user kind s).0
        ≡ ok (devices_of user (send_notification send_push user kind s).1.db))
      × (devices_of user (send_notification send_push user kind s).1.db
          ≡ filter (gets_it send_push user content) u.devices)
      × (find j (send_notification send_push user kind s).1.db.users.rows ≡ find j s.db.users.rows)
unfolding send_notification in_transaction_with_result in_transaction
send_notification-devices send_push user j kind content s {u} b h k t n =
    let all =
      send_to-devices send_push user content [] u.devices s {u = u} t h refl k
        (IsApart-nil u.devices) in
    (
      ground (arith, all),
      ground (arith, all),
      ground (arith, all, send_to_others send_push user content j u.devices s n),
    )
