-- ===== src/Jobs.antt =====
-- What the jobs do that NotificationService, ActivityService and TextUtilsService give to
-- service/job. The push that follows a notification is left to Notifications/Push.antt.
pub mod Queue
pub mod Drain
pub mod Delivery
mod Tests
use graffi_tab_backend.Prelude.{List, [], ◌∷◌}
use graffi_tab_backend.Prelude.Text.{Text}
use graffi_tab_backend.Backend.{Backend, Action, Job, add_notification, add_activity, parse_text}
use graffi_tab_backend.Notifications.{add_notification_to_user}
use graffi_tab_backend.Activities.{add_user_activity}
use graffi_tab_backend.TextUtils

-- `r.run()`
unfoldable pub run_job : Job → Action (Unit {0})
unfolding add_notification_to_user add_user_activity TextUtils.parse_text
run_job (add_notification receiver kind now) = add_notification_to_user receiver kind now
run_job (add_activity user kind now ip agent) = add_user_activity user kind now ip agent
run_job (parse_text user text streamable comment now) =
    TextUtils.parse_text user text streamable comment now

-- A worker that runs these jobs one after the other: an exception of one does not stop the next.
unfoldable pub run_jobs : List Job → Backend → Backend
unfolding run_job
run_jobs [] s = s
run_jobs (j ∷ js) s = run_jobs js (run_job j s).1
