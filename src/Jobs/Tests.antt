-- ===== src/Jobs/Tests.antt =====
-- Ann follows Cat, and a queue runs two jobs.
use graffi_tab_backend.Prelude.{◌⊎◌, ◌+◌, ◌≡◌, ◌≤◌, refl, [], ◌∷◌, ◌++◌}
use graffi_tab_backend.Model.Content
use graffi_tab_backend.Backend.{Backend, Job, add_notification}
use graffi_tab_backend.Backend.Lookup.{current_id}
use graffi_tab_backend.Samples.{start, as_ann, client}
use graffi_tab_backend.Users.Following.{follow}
use graffi_tab_backend.Jobs.{run_jobs}
use graffi_tab_backend.Jobs.Delivery.{unread, activities_of, follow_notifies}
use graffi_tab_backend.Jobs.Drain.{Runs, still, more, steps_left, CanGoOn, Runs-drain}
use graffi_tab_backend.Jobs.Queue.{
  Pool, new_pool, ready, waiting, dead, busy, execute, execute_unheard, wait, take, finish, Reach,
  here, next, IsFifo, IsDead, Reach-IsFifo, Reach-IsDead,
}

abbrev followed : Backend
followed = (follow as_ann client 3 start).1

follow_notifies_example :
    (unread 3 (run_jobs followed.jobs followed).db.notifications.rows
      ≡ unread 3 start.db.notifications.rows + 1)
    × (activities_of 1 (run_jobs followed.jobs followed).db.activities.rows
        ≡ activities_of 1 start.db.activities.rows + 1)
unfolding follow current_id
follow_notifies_example =
    follow_notifies as_ann client 1 3 start followed {id = 3} refl refl refl refl

abbrev welcome : Job
welcome = add_notification 1 Content.welcome 0

-- The first worker waits, and the second takes the one job.
abbrev running : Pool
running = record {
  queue = [];
  workers = waiting ∷ busy welcome ∷ [];
  submitted = welcome ∷ [];
  started = welcome ∷ [];
}

-- Both workers wait, and the submission wakes the second.
Reach-running : Reach new_pool running
Reach-running =
    next
      (next (next (next here (wait new_pool 0 refl refl)) (wait _ 1 refl refl))
        (execute _ welcome 1 refl))
      (take _ 1 welcome [] refl refl)

Reach-IsFifo_example : IsFifo running
Reach-IsFifo_example = Reach-IsFifo running Reach-running

abbrev stopped : Pool
stopped = record { queue = []; workers = dead ∷ dead ∷ []; submitted = []; started = [] }

abbrev waiting_for_ever : Pool
waiting_for_ever = record stopped { queue = welcome ∷ []; submitted = welcome ∷ [] }

Reach-IsDead_example : waiting_for_ever.started ≡ stopped.started
Reach-IsDead_example =
    Reach-IsDead stopped waiting_for_ever (refl, (refl, tt))
      (next here (execute_unheard stopped welcome refl))

-- One job waits, the first worker runs it, and both wait then.
abbrev one_waits : Pool
one_waits = record {
  queue = welcome ∷ [];
  workers = ready ∷ ready ∷ [];
  submitted = welcome ∷ [];
  started = [];
}

Reach-one_waits : Reach new_pool one_waits
Reach-one_waits = next here (execute_unheard new_pool welcome refl)

abbrev drained : Pool
drained = record one_waits { queue = []; workers = waiting ∷ waiting ∷ []; started = welcome ∷ [] }

drains : Runs one_waits 4 drained
drains =
    more
      (more
        (more (more still (take one_waits 0 welcome [] refl refl) refl) (finish _ 0 welcome refl)
          refl)
        (wait _ 0 refl refl) refl)
      (wait _ 1 refl refl) refl

Runs-drain_example :
    (4 ≤ steps_left one_waits)
    × (CanGoOn drained
        ⊎ IsDead drained
        ⊎ ((drained.queue ≡ []) × (drained.started ≡ one_waits.started ++ one_waits.queue)))
Runs-drain_example = Runs-drain one_waits drained 4 Reach-one_waits drains
