-- ===== src/Notifications/Marking.antt =====
-- What marking notifications as read does to them.
use graffi_tab_backend.Prelude.{
  ℕ, ◌+◌, ◌≤◌, ◌≡◌, ◌⊎◌, refl, inl, inr, true, false, some, List, [], ◌∷◌, ◌==◌, find, update,
  find-update, length, All, arith, Option-cases, Bool-cases,
}
use graffi_tab_backend.Errors.{ok}
use graffi_tab_backend.Model.Content.{Notification}
use graffi_tab_backend.Backend.{Backend, Result-cases}
use graffi_tab_backend.Backend.Lookup.{Request, current_id}
use graffi_tab_backend.Paging.{get_items}
use graffi_tab_backend.Jobs.Delivery.{unread}
use graffi_tab_backend.Notifications.{
  read_notification, update_notification, mark_single_notification_as_read,
  mark_group_notifications_as_read, notifications_of, mark_all_notifications_as_read,
}

-- The notification is there, and read.
abbrev pub IsRead : ℕ → Backend → Type 0
IsRead id s = (n : Notification) × (find id s.db.notifications.rows ≡ some n) × (n.is_read ≡ true)

mark_single_sound :
    (id : ℕ) (s s' : Backend)
    → mark_single_notification_as_read id s ≡ (ok tt, s')
    → s'.db ≡ update_notification id read_notification s.db
unfolding mark_single_notification_as_read
mark_single_sound id s s' e = elim (Option-cases (find id s.db.notifications.rows)) [
  | inl h ↦ ground arith
  | inr (n, h) ↦ ground arith
]

update-IsRead :
    (id x : ℕ) (s s' : Backend)
    → s'.db ≡ update_notification id read_notification s.db
    → IsRead x s
    → IsRead x s'
update-IsRead id x s s' e (n, h, r) = elim (Bool-cases (x == id)) [
  | inl same ↦ (
    read_notification n,
    ground (arith, find-update x id read_notification s.db.notifications.rows),
    refl,
  )
  | inr other ↦ (n, ground (arith, find-update x id read_notification s.db.notifications.rows), r)
]

mark_single-IsRead :
    (id : ℕ) (s s' : Backend) → mark_single_notification_as_read id s ≡ (ok tt, s') → IsRead id s'
unfolding mark_single_notification_as_read
mark_single-IsRead id s s' e = elim (Option-cases (find id s.db.notifications.rows)) [
  | inl h ↦ absurd (ground arith)
  | inr (n, h) ↦ (
    read_notification n,
    ground (arith, find-update id id read_notification s.db.notifications.rows),
    refl,
  )
]

-- As the query read it: unread, or read in the database as well.
abbrev pub IsCurrent : Backend → ℕ × Notification → Type 0
IsCurrent s (id, n) = (n.is_read ≡ false) ⊎ IsRead id s

All-IsCurrent :
    (id : ℕ) (l : List (ℕ × Notification)) (s s' : Backend)
    → s'.db ≡ update_notification id read_notification s.db
    → All (IsCurrent s) l
    → All (IsCurrent s') l
All-IsCurrent id [] s s' e h = tt
All-IsCurrent id ((x, n) ∷ l) s s' e (inl fresh, h) = (inl fresh, All-IsCurrent id l s s' e h)
All-IsCurrent id ((x, n) ∷ l) s s' e (inr done, h) =
    (inr (update-IsRead id x s s' e done), All-IsCurrent id l s s' e h)

mark_group_keeps :
    (x : ℕ) (l : List (ℕ × Notification)) (s s' : Backend)
    → mark_group_notifications_as_read l s ≡ (ok tt, s')
    → IsRead x s
    → IsRead x s'
unfolding mark_group_notifications_as_read
mark_group_keeps x [] s s' e h = let same : s' ≡ s = ground arith in rw same h
mark_group_keeps x ((id, n) ∷ l) s s' e h = elim (Bool-cases n.is_read) [
  | inl old ↦ mark_group_keeps x l s s' (ground arith) h
  | inr new ↦ elim (Result-cases (mark_single_notification_as_read id s)) [
    | inr (f, t, q) ↦ absurd (ground arith)
    | inl (u, t, q) ↦
        let step = update-IsRead id x s t (mark_single_sound id s t (ground arith)) h in
        mark_group_keeps x l t s' (ground arith) step
  ]
]

-- Where what the list has as read is read in the database, marking the list, if it returns,
-- leaves every notification of it read.
pub mark_group_sound :
    (l : List (ℕ × Notification)) (s s' : Backend)
    → All (IsCurrent s) l
    → mark_group_notifications_as_read l s ≡ (ok tt, s')
    → All (λ x. IsRead x.0 s') l
unfolding mark_group_notifications_as_read
mark_group_sound [] s s' h e = tt
mark_group_sound ((id, n) ∷ l) s s' (now, h) e = elim (Bool-cases n.is_read) [
  | inl old ↦ elim now [
    | inl fresh ↦ absurd (ground arith)
    | inr done ↦
        let all : mark_group_notifications_as_read l s ≡ (ok tt, s') = ground arith in
        (mark_group_keeps id l s s' all done, mark_group_sound l s s' h all)
  ]
  | inr new ↦ elim (Result-cases (mark_single_notification_as_read id s)) [
    | inr (f, t, q) ↦ absurd (ground arith)
    | inl (u, t, q) ↦
        let one : mark_single_notification_as_read id s ≡ (ok tt, t) = ground arith in
        let all : mark_group_notifications_as_read l t ≡ (ok tt, s') = ground arith in
        let h' = All-IsCurrent id l s t (mark_single_sound id s t one) h in
        (
          mark_group_keeps id l t s' all (mark_single-IsRead id s t one),
          mark_group_sound l t s' h' all,
        )
  ]
]

unread-update :
    (user id : ℕ) (t : List (ℕ × Notification))
    → unread user t ≤ unread user (update id read_notification t) + 1
unread-update user id [] = omega arith
unread-update user id ((j, n) ∷ t) = ground (arith, unread-update user id t)

mark_single_few :
    (user id : ℕ) (s : Backend)
    → unread user s.db.notifications.rows
      ≤ unread user (mark_single_notification_as_read id s).1.db.notifications.rows + 1
unfolding mark_single_notification_as_read
mark_single_few user id s = elim (Option-cases (find id s.db.notifications.rows)) [
  | inl h ↦ ground arith
  | inr (n, h) ↦ ground (arith, unread-update user id s.db.notifications.rows)
]

mark_group_few :
    (user : ℕ) (l : List (ℕ × Notification)) (s : Backend)
    → unread user s.db.notifications.rows
      ≤ unread user (mark_group_notifications_as_read l s).1.db.notifications.rows + length l
unfolding mark_group_notifications_as_read
mark_group_few user [] s = ground arith
mark_group_few user ((id, n) ∷ l) s = elim (Bool-cases n.is_read) [
  | inl old ↦ ground (arith, mark_group_few user l s)
  | inr new ↦ elim (Result-cases (mark_single_notification_as_read id s)) [
    | inr (f, t, q) ↦ ground (arith, mark_single_few user id s)
    | inl (u, t, q) ↦ ground (arith, mark_single_few user id s, mark_group_few user l t)
  ]
]

-- Where the database gives a query at most as many rows as it asks for, marking all as read
-- leaves at most 20 fewer unread notifications of any user.
pub mark_all_few :
    (query_list : ℕ → ℕ → List (ℕ × Notification) → List (ℕ × Notification)) (since : ℕ)
    (r : Request) (user : ℕ) (s : Backend)
    → ((o l : ℕ) (rows : List (ℕ × Notification)) → length (query_list o l rows) ≤ l)
    → unread user s.db.notifications.rows
      ≤ unread user (mark_all_notifications_as_read query_list since r s).1.db.notifications.rows
        + 20
unfolding mark_all_notifications_as_read get_items
mark_all_few q since r user s few = elim (Option-cases (current_id r)) [
  | inl e ↦ ground arith
  | inr (a, e) ↦
      let rows = notifications_of q since a s.db in
      let page = q 0 20 rows in
      let small : length page ≤ 20 = few 0 20 rows in
      elim (Result-cases (mark_group_notifications_as_read page s)) [
        | inr (f, t, h) ↦ ground arith
        | inl (u, t, h) ↦ ground (arith, mark_group_few user page s)
      ]
]
