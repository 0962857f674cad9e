-- ===== src/Jobs/Delivery.antt =====
-- From a follow to the notification that the followed user finds.
use graffi_tab_backend.Prelude.{
  ℕ, ◌+◌, ◌≡◌, ◌≢◌, inl, inr, false, not, ◌&&◌, none, some, List, [], ◌∷◌, ◌++◌, ◌==◌, find,
  find-update, arith, if◌then◌else◌, Option-cases,
}
use graffi_tab_backend.Errors.{ok}
use graffi_tab_backend.Model.{Database}
use graffi_tab_backend.Model.Content.{Notification, Activity, NotificationKind, ActivityKind}
use graffi_tab_backend.Model.Content
use graffi_tab_backend.Backend.{Backend, add_notification, add_activity}
use graffi_tab_backend.Backend.Lookup.{Request, current_id, update_user}
use graffi_tab_backend.Users.Following.{Client, follow, add_following}
use graffi_tab_backend.Users.Following.Graph.{follows}
use graffi_tab_backend.Notifications.{new_notification, persist_notification}
use graffi_tab_backend.Activities.{new_activity, persist_activity}
use graffi_tab_backend.Jobs.{run_jobs, run_job}

-- What a new follow leaves in the queue.
follow_jobs :
    (r : Request) (c : Client) (a b : ℕ) (s s' : Backend) {id : ℕ}
    → current_id r ≡ some a
    → follows a b s.db ≡ false
    → follow r c b s ≡ (ok id, s')
    → s' ≡ record s {
      db = update_user a (add_following b) s.db;
      jobs =
          s.jobs
          ++ add_notification b (Content.NotificationKind.follow a) r.now ∷ []
          ++ add_activity a (Content.ActivityKind.follow b) r.now c.ip_address c.user_agent ∷ [];
    }
unfolding follow
follow_jobs r c a b s s' current new e = ground arith

-- The unread notifications of a user.
abbrev pub unread : ℕ → List (ℕ × Notification) → ℕ
unread user [] = 0
unread user ((j, n) ∷ t) = (if n.receiver == user && not n.is_read then 1 else 0) + unread user t

pub unread-append :
    (user : ℕ) (t u : List (ℕ × Notification))
    → unread user (t ++ u) ≡ unread user t + unread user u
unread-append user [] u = omega arith
unread-append user ((j, n) ∷ t) u = omega (arith, unread-append user t u)

-- The activities of a user.
abbrev pub activities_of : ℕ → List (ℕ × Activity) → ℕ
activities_of user [] = 0
activities_of user ((j, a) ∷ t) = (if a.user == user then 1 else 0) + activities_of user t

activities_of-append :
    (user : ℕ) (t u : List (ℕ × Activity))
    → activities_of user (t ++ u) ≡ activities_of user t + activities_of user u
activities_of-append user [] u = omega arith
activities_of-append user ((j, a) ∷ t) u = omega (arith, activities_of-append user t u)

follow_rows :
    (r : Request) (c : Client) (a b : ℕ) (s : Backend) {id : ℕ}
    → current_id r ≡ some a
    → (follow r c b s).0 ≡ ok id
    → (find a s.db.users.rows ≢ none) × (find b s.db.users.rows ≢ none)
unfolding follow
follow_rows r c a b s current e = (ground arith, ground arith)

job_adds_notification :
    (b : ℕ) (k : NotificationKind) (now : ℕ) (s : Backend)
    → find b s.db.users.rows ≢ none
    → (run_job (add_notification b k now) s).1
      ≡ record s { db = persist_notification (new_notification b k now) s.db }
unfolding run_job
job_adds_notification b k now s h = ground arith

pub job_adds_activity :
    (a : ℕ) (k : ActivityKind) (now : ℕ) (c : Client) (s : Backend)
    → find a s.db.users.rows ≢ none
    → (run_job (add_activity a k now c.ip_address c.user_agent) s).1
      ≡ record s { db = persist_activity (new_activity a k now c.ip_address c.user_agent) s.db }
unfolding run_job
job_adds_activity a k now c s h = ground arith

still_there :
    (x a b : ℕ) (d : Database)
    → find x d.users.rows ≢ none
    → find x (update_user a (add_following b) d).users.rows ≢ none
still_there x a b d h = elim (Option-cases (find x d.users.rows)) [
  | inl e ↦ ground arith
  | inr (u, e) ↦ ground (arith, find-update x a (add_following b) d.users.rows)
]

-- Where nothing was queued, and the current user did not follow the other yet, a follow that
-- returns, once the jobs that it queued have run, leaves the followed user exactly one more
-- unread notification, and the follower exactly one more activity.
pub follow_notifies :
    (r : Request) (c : Client) (a b : ℕ) (s s' : Backend) {id : ℕ}
    → current_id r ≡ some a
    → follows a b s.db ≡ false
    → s.jobs ≡ []
    → follow r c b s ≡ (ok id, s')
    → (unread b (run_jobs s'.jobs s').db.notifications.rows ≡ unread b s.db.notifications.rows + 1)
      × (activities_of a (run_jobs s'.jobs s').db.activities.rows
          ≡ activities_of a s.db.activities.rows + 1)
unfolding run_jobs
follow_notifies r c a b s s' {id} current new idle e =
    let left = follow_jobs r c a b s s' current new e in
    let (fa, fb) = follow_rows r c a b s {id = id} current (ground arith) in
    let d : Database = update_user a (add_following b) s.db in
    let fa' = still_there a a b s.db fa in
    let fb' = still_there b a b s.db fb in
    let first =
      job_adds_notification b (Content.NotificationKind.follow a) r.now s' (ground arith) in
    let t : Backend =
      (run_job (add_notification b (Content.NotificationKind.follow a) r.now) s').1 in
    let second = job_adds_activity a (Content.ActivityKind.follow b) r.now c t (ground arith) in
    (
      ground (
        arith,
        first,
        second,
        unread-append b s.db.notifications.rows (
            (s.db.notifications.next, new_notification b (Content.NotificationKind.follow a) r.now)
            ∷ []),
      ),
      ground (
        arith,
        first,
        second,
        activities_of-append a s.db.activities.rows (
            (
              s.db.activities.next,
              new_activity a (Content.ActivityKind.follow b) r.now c.ip_address c.user_agent,
            )
            ∷ []),
      ),
    )
