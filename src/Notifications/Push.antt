-- ===== src/Notifications/Push.antt =====
-- service/notification/PushsenderNotificationSenderService.java: the push notification that
-- follows a new notification.
pub mod Kept
pub mod Stays
mod Tests
use graffi_tab_backend.Prelude.{ℕ, Option, none, some, List, [], ◌∷◌, ◌++◌, find}
use graffi_tab_backend.Prelude.Text.{Text, codes}
use graffi_tab_backend.Errors.{null_pointer, ok, err}
use graffi_tab_backend.Model.{Database}
use graffi_tab_backend.Model.Account.{User, Device}
use graffi_tab_backend.Model.Content.{NotificationKind, welcome, follow, like, comment, mention}
use graffi_tab_backend.Backend.{Action, pure, gets, or_throw, modify, ◌>>=◌, ◌>>◌}
use graffi_tab_backend.Backend.Transactions.{in_transaction, in_transaction_with_result}
use graffi_tab_backend.Backend.Lookup.{find_user_by_id, deref, update_user}
use graffi_tab_backend.Users.Devices.{remove_device}
use graffi_tab_backend.Notifications.{add_notification_to_user}

-- `user.getFirstName() + " " + user.getLastName()` and what they did.
abbrev pub names : ℕ → Text → Action Text
names user did = do
  found ← find_user_by_id user
  u ← or_throw found null_pointer
  pure (u.first_name ++ codes " " ++ u.last_name ++ did)

-- `buildContentForNotification`; a comment always has a text.
abbrev pub build_content_for_notification : NotificationKind → Action Text
build_content_for_notification welcome = pure (codes "Welcome to GraffiTab!")
build_content_for_notification (follow user) = names user (codes " started following you")
build_content_for_notification (like user streamable) = names user (codes " liked your post")
build_content_for_notification (comment user streamable id) =
    names user (codes " commented on your post")
build_content_for_notification (mention user streamable none) =
    names user (codes " mentioned you in a post")
build_content_for_notification (mention user streamable (some id)) =
    names user (codes " mentioned you in a comment")

-- How `sendPush` of the service for the device's system ends.
pub data Delivery : Type 0 where
  delivered failed thrown : Delivery

-- `handlePushNotificationError`
abbrev pub handle_push_notification_error : ℕ → Device → Action (Unit {0})
handle_push_notification_error user d =
    in_transaction
      do found ← find_user_by_id user; deref found; modify (update_user user (remove_device d))

module _ (send_push : Text → Device → Delivery) where
  -- The loop over the devices. Its result is what was delivered: the devices, in their order.
  pub send_to : ℕ → Text → List Device → Action (List Device)
  unfolding in_transaction
  send_to user content [] = pure []
  send_to user content (d ∷ ds) = elim (send_push content d) [
    | delivered ↦ do rest ← send_to user content ds; pure (d ∷ rest)
    | failed ↦ do handle_push_notification_error user d; send_to user content ds
    | thrown ↦ pure []
  ]

  abbrev pub send_notification_body : ℕ → NotificationKind → Action (List Device)
  send_notification_body user kind = do
    content ← build_content_for_notification kind
    devices ←
        in_transaction_with_result
          do found ← find_user_by_id user; inner ← deref found; pure inner.devices
    send_to user content devices

  -- `sendNotification`, which logs every exception and goes on.
  unfoldable pub send_notification : ℕ → NotificationKind → Action (List Device)
  unfolding in_transaction_with_result send_to
  send_notification user kind s =
      let (r, s') = send_notification_body user kind s in
      elim r [ ok ds ↦ (ok ds, s') | err e ↦ (ok [], s') ]

  -- The runnable of `addNotificationToUser`.
  unfoldable pub notify_user : ℕ → NotificationKind → ℕ → Action (List Device)
  unfolding add_notification_to_user send_notification
  notify_user receiver kind now = do
    add_notification_to_user receiver kind now
    send_notification receiver kind
