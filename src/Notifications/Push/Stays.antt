-- ===== src/Notifications/Push/Stays.antt =====
-- A new notification and the push that follows it.
use graffi_tab_backend.Prelude.{
  ℕ, ◌≡◌, refl, inl, inr, none, some, List, [], ◌∷◌, find, arith, Option-cases,
}
use graffi_tab_backend.Prelude.Text.{Text}
use graffi_tab_backend.Model.Account.{Device}
use graffi_tab_backend.Model.Content.{NotificationKind, welcome, follow, like, comment, mention}
use graffi_tab_backend.Backend.{Backend, Result-cases}
use graffi_tab_backend.Backend.Transactions.{in_transaction, in_transaction_with_result}
use graffi_tab_backend.Backend.Lookup.{update_user}
use graffi_tab_backend.Users.Devices.{remove_device}
use graffi_tab_backend.Notifications.{add_notification_to_user}
use graffi_tab_backend.Notifications.Push.{
  Delivery, build_content_for_notification, send_to, send_notification, notify_user, names,
}

send_to_notifications :
    (send_push : Text → Device → Delivery) (user : ℕ) (content : Text) (ds : List Device)
    (s : Backend)
    → (send_to send_push user content ds s).1.db.notifications ≡ s.db.notifications
unfolding send_to in_transaction
send_to_notifications send_push user content [] s = refl
send_to_notifications send_push user content (d ∷ ds) s =
    let here = send_to_notifications send_push user content ds s in
    let s1 : Backend = record s { db = update_user user (remove_device d) s.db } in
    let there = send_to_notifications send_push user content ds s1 in
    elim (Option-cases (find user s.db.users.rows)) [
      | inl gone ↦ ground (arith, here)
      | inr (u, known) ↦ ground (arith, here, there)
    ]

names_state : (user : ℕ) (did : Text) (s : Backend) → (names user did s).1 ≡ s
names_state user did s = elim (Option-cases (find user s.db.users.rows)) [
  | inl gone ↦ ground arith
  | inr (u, known) ↦ ground arith
]

content_state :
    (kind : NotificationKind) (s : Backend) → (build_content_for_notification kind s).1 ≡ s
content_state welcome s = refl
content_state (follow user) s = names_state user _ s
content_state (like user streamable) s = names_state user _ s
content_state (comment user streamable id) s = names_state user _ s
content_state (mention user streamable none) s = names_state user _ s
content_state (mention user streamable (some id)) s = names_state user _ s

send_notification-notifications :
    (send_push : Text → Device → Delivery) (user : ℕ) (kind : NotificationKind) (s : Backend)
    → (send_notification send_push user kind s).1.db.notifications ≡ s.db.notifications
unfolding send_notification in_transaction_with_result in_transaction
send_notification-notifications send_push user kind s =
    elim (Result-cases (build_content_for_notification kind s)) [
      | inl (content, t, q) ↦
          let same = content_state kind s in
          elim (Option-cases (find user s.db.users.rows)) [
            | inl gone ↦ ground (arith, same)
            | inr (u, known) ↦
                let sent = send_to_notifications send_push user content u.devices s in
                elim (Result-cases (send_to send_push user content u.devices s)) [
                  | inl (ds, t', q') ↦ ground (arith, same, sent)
                  | inr (f, t', q') ↦ ground (arith, same, sent)
                ]
          ]
      | inr (f, t, q) ↦ ground (arith, content_state kind s)
    ]

-- Whatever the services do with the push that follows, a notification that was added stays.
pub notify_user-notifications :
    (send_push : Text → Device → Delivery) (receiver now : ℕ) (kind : NotificationKind)
    (s : Backend)
    → (notify_user send_push receiver kind now s).1.db.notifications
      ≡ (add_notification_to_user receiver kind now s).1.db.notifications
unfolding notify_user
notify_user-notifications send_push receiver now kind s =
    elim (Result-cases (add_notification_to_user receiver kind now s)) [
      | inl (x, t, q) ↦ ground (arith, send_notification-notifications send_push receiver kind t)
      | inr (f, t, q) ↦ ground arith
    ]
