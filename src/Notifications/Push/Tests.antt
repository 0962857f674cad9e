-- ===== src/Notifications/Push/Tests.antt =====
-- Bob follows Ann, who has two devices, one of which the service does not reach.
use graffi_tab_backend.Prelude.{◌≡◌, ◌≢◌, refl, [], ◌∷◌, find, filter, arith}
use graffi_tab_backend.Prelude.Text.{Text, codes}
use graffi_tab_backend.Errors.{ok}
use graffi_tab_backend.Model.Account.{User, Device, android, ios, OsType}
use graffi_tab_backend.Model.Content
use graffi_tab_backend.Backend.{Backend}
use graffi_tab_backend.Samples.{start, ann, bob}
use graffi_tab_backend.Notifications.Push.{Delivery, delivered, failed, thrown, send_notification}
use graffi_tab_backend.Notifications.Push.Kept.{devices_of, gets_it, send_notification-devices}

abbrev to_android : Text → Device → Delivery
to_android content d = elim d.os_type [ android ↦ delivered | ios ↦ failed ]

abbrev phone : Device
phone = record { os_type = ios; token = codes "p" }

abbrev tablet : Device
tablet = record { os_type = android; token = codes "t" }

abbrev connected : User
connected = record ann { devices = phone ∷ tablet ∷ [] }

abbrev online : Backend
online = record start {
  db = record (start.db) { users = record { rows = (1, connected) ∷ (2, bob) ∷ []; next = 3 } };
}

never_thrown : (d : Device) → to_android (codes "bob bob started following you") d ≢ thrown
never_thrown d = by_system d.os_type
  where
    by_system :
        (o : OsType) → elim o as (λ _. Delivery) [ android ↦ delivered | ios ↦ failed ] ≢ thrown
    by_system android e = absurd (ground arith)
    by_system ios e = absurd (ground arith)

send_notification-devices_example :
    ((send_notification to_android 1 (Content.NotificationKind.follow 2) online).0
      ≡ ok (
          devices_of 1
            (send_notification to_android 1 (Content.NotificationKind.follow 2) online).1.db))
    × (devices_of 1 (send_notification to_android 1 (Content.NotificationKind.follow 2) online).1.db
        ≡ filter
            (gets_it to_android 1 (codes "bob bob started following you"))
            (phone ∷ tablet ∷ []))
    × (find 2
          (send_notification to_android 1
            (Content.NotificationKind.follow 2)
            online).1.db.users.rows
        ≡ find 2 online.db.users.rows)
send_notification-devices_example =
    send_notification-devices to_android 1 2 (Content.NotificationKind.follow 2)
      (codes "bob bob started following you") online {u = connected} refl refl
      ((refl, tt), (tt, tt)) never_thrown (ground arith)
