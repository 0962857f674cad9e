-- ===== src/Notifications.antt =====
-- service/notification/NotificationService.java: the notifications of the current user. `since`
-- is ONE_MONTH_AGO, which the class computes once, when it is loaded. The push
-- notification that follows a new row is in Notifications/Push.antt.
pub mod Push
pub mod Marking
use graffi_tab_backend.Prelude.{
  ℕ, ◌+◌, true, false, ◌++◌, not, ◌&&◌, Option, none, some, List, [], ◌∷◌, ◌==◌, ltb, select, find,
  update, length, if◌then◌else◌,
}
use graffi_tab_backend.Prelude.Sorting.{order_by}
use graffi_tab_backend.Errors.{invalid_id, rest}
use graffi_tab_backend.Model.{Database}
use graffi_tab_backend.Model.Content.{Notification, NotificationKind}
use graffi_tab_backend.Backend.{Action, pure, throw, gets, modify, ◌>>◌, ◌>>=◌}
use graffi_tab_backend.Backend.Transactions.{in_transaction, in_transaction_with_result}
use graffi_tab_backend.Backend.Lookup.{find_user_by_id, deref, Request, get_current_user}
use graffi_tab_backend.Paging.{PagedList, get_items}

abbrev pub new_notification : ℕ → NotificationKind → ℕ → Notification
new_notification receiver kind now = record {
  receiver = receiver;
  kind = kind;
  created_on = now;
  is_read = false;
}

-- `inner.getNotifications().add(notification)`
abbrev pub persist_notification : Notification → Database → Database
persist_notification n d = record d {
  notifications = record {
    rows = d.notifications.rows ++ (d.notifications.next, n) ∷ [];
    next = d.notifications.next + 1;
  };
}

-- The transaction in the runnable of `addNotificationToUser`.
unfoldable pub add_notification_to_user : ℕ → NotificationKind → ℕ → Action (Unit {0})
unfolding in_transaction
add_notification_to_user receiver kind now = in_transaction do
  inner ← find_user_by_id receiver
  deref inner
  modify (persist_notification (new_notification receiver kind now))

-- `findNotificationById`
abbrev pub find_notification_by_id : ℕ → Action (Option Notification)
find_notification_by_id id = gets (λ d. find id d.notifications.rows)

abbrev pub read_notification : Notification → Notification
read_notification n = record n { is_read = true }

abbrev pub update_notification : ℕ → (Notification → Notification) → Database → Database
update_notification id f d = record d {
  notifications = record (d.notifications) { rows = update id f d.notifications.rows };
}

-- `markSingleNotificationAsRead`
unfoldable pub mark_single_notification_as_read : ℕ → Action (Unit {0})
unfolding in_transaction_with_result
mark_single_notification_as_read id = in_transaction_with_result do
  inner ← find_notification_by_id id
  deref inner
  modify (update_notification id read_notification)

-- `markNotificationAsRead`, of an id that may be null. A notification that is not there is
-- dereferenced inside the inner transaction.
unfoldable pub mark_notification_as_read : Option ℕ → Action (Unit {0})
unfolding in_transaction mark_single_notification_as_read
mark_notification_as_read none = in_transaction (throw (rest invalid_id))
mark_notification_as_read (some id) = in_transaction (mark_single_notification_as_read id)

-- The loop of `markGroupNotificationsAsRead`.
unfoldable pub mark_group_notifications_as_read : List (ℕ × Notification) → Action (Unit {0})
unfolding mark_single_notification_as_read
mark_group_notifications_as_read [] = pure tt
mark_group_notifications_as_read ((id, n) ∷ later) =
    if n.is_read
    then mark_group_notifications_as_read later
    else (mark_single_notification_as_read id >> mark_group_notifications_as_read later)

module _ (query_list : ℕ → ℕ → List (ℕ × Notification) → List (ℕ × Notification)) (since : ℕ) where
  -- `Notification.getNotifications`
  abbrev pub notifications_of : ℕ → Database → List (ℕ × Notification)
  notifications_of user d =
      order_by (λ n. n.created_on)
        (select (λ _ n. n.receiver == user && ltb since n.created_on) d.notifications.rows)

  -- `findNotificationsForCurrentUser`
  unfoldable pub find_notifications_for_current_user :
      Request → Option ℕ → Option ℕ → Action (PagedList (ℕ × Notification))
  unfolding in_transaction_with_result
  find_notifications_for_current_user r offset limit = in_transaction_with_result do
    current ← get_current_user r
    rows ← gets (notifications_of current)
    pure (get_items query_list rows offset limit)

  -- `getUnreadNotificationsCount`
  unfoldable pub get_unread_notifications_count : Request → Action ℕ
  unfolding in_transaction
  get_unread_notifications_count r = in_transaction do
    current ← get_current_user r
    gets λ d. length (
        select (λ _ n. n.receiver == current && ltb since n.created_on && not n.is_read)
          d.notifications.rows)

  -- `markAllNotificationsAsReadForCurrentUser`
  unfoldable pub mark_all_notifications_as_read : Request → Action (Unit {0})
  unfolding in_transaction find_notifications_for_current_user mark_group_notifications_as_read
  mark_all_notifications_as_read r = in_transaction do
    notifications ← find_notifications_for_current_user r (some 0) (some 10_000)
    mark_group_notifications_as_read notifications.items
