-- ===== src/Jobs/Queue.antt =====
-- service/job/WorkQueue.java: a queue and its workers, as steps. A step is what one thread does
-- while it holds the lock of the queue, or the end of a job.
use graffi_tab_backend.Prelude.{
  ℕ, zero, suc, ◌≡◌, refl, Option, none, some, List, [], ◌∷◌, ◌++◌, length, All, any, Bool, true,
  false, arith,
}
use graffi_tab_backend.Backend.{Job}

-- A `PoolWorker`: it is about to look into the queue, it is in `queue.wait()`, it runs a job, or it
-- has died of an `Error`, which it does not catch.
pub data Worker : Type 0 where
  ready waiting dead : Worker
  busy : Job → Worker

abbrev pub is_waiting : Worker → Bool
is_waiting waiting = true
is_waiting _ = false

-- The queue and the workers; and what was given to `execute`, and what was started, so far.
pub record Pool : Type 0 where
  pub queue : List Job
  pub workers : List Worker
  pub submitted : List Job
  pub started : List Job

abbrev pub worker : ℕ → List Worker → Option Worker
worker i [] = none
worker zero (w ∷ ws) = some w
worker (suc i) (w ∷ ws) = worker i ws

abbrev pub set_worker : ℕ → Worker → List Worker → List Worker
set_worker i v [] = []
set_worker zero v (w ∷ ws) = v ∷ ws
set_worker (suc i) v (w ∷ ws) = w ∷ set_worker i v ws

-- `new WorkQueue(2)`
abbrev pub new_pool : Pool
new_pool = record { queue = []; workers = ready ∷ ready ∷ []; submitted = []; started = [] }

abbrev pub submit : Job → Pool → Pool
submit j p = record p { queue = p.queue ++ j ∷ []; submitted = p.submitted ++ j ∷ [] }

pub data Step : Pool → Pool → Type 0 where
  -- `queue.addLast(r); queue.notify();`, which wakes one of the workers that wait.
  execute :
      (p : Pool) (j : Job) (i : ℕ)
      → worker i p.workers ≡ some waiting
      → Step p (record (submit j p) { workers = set_worker i ready p.workers })
  -- The same, where none waits.
  execute_unheard : (p : Pool) (j : Job) → any is_waiting p.workers ≡ false → Step p (submit j p)
  -- `queue.wait()`
  wait :
      (p : Pool) (i : ℕ)
      → worker i p.workers ≡ some ready
      → p.queue ≡ []
      → Step p (record p { workers = set_worker i waiting p.workers })
  -- `queue.wait()` returns though nobody notified, or is interrupted.
  wake :
      (p : Pool) (i : ℕ)
      → worker i p.workers ≡ some waiting
      → Step p (record p { workers = set_worker i ready p.workers })
  -- `r = queue.removeFirst()`
  take :
      (p : Pool) (i : ℕ) (j : Job) (js : List Job)
      → worker i p.workers ≡ some ready
      → p.queue ≡ j ∷ js
      → Step p (record p {
        queue = js;
        started = p.started ++ j ∷ [];
        workers = set_worker i (busy j) p.workers;
      })
  -- `r.run()` returns, or throws a `RuntimeException`.
  finish :
      (p : Pool) (i : ℕ) (j : Job)
      → worker i p.workers ≡ some (busy j)
      → Step p (record p { workers = set_worker i ready p.workers })
  -- `r.run()` throws an `Error`.
  die :
      (p : Pool) (i : ℕ) (j : Job)
      → worker i p.workers ≡ some (busy j)
      → Step p (record p { workers = set_worker i dead p.workers })

pub data Reach (p : Pool) : Pool → Type 0 where
  here : Reach p p
  next : {q r : Pool} → Reach p q → Step q r → Reach p r

-- The jobs that were started and those that wait are the jobs submitted, in that order.
abbrev pub IsFifo : Pool → Type 0
IsFifo p = p.submitted ≡ p.started ++ p.queue

pub append_assoc : (s t u : List Job) → (s ++ t) ++ u ≡ s ++ (t ++ u)
append_assoc [] t u = refl
append_assoc (c ∷ s) t u = ground (arith, append_assoc s t u)

step-IsFifo : (p q : Pool) → Step p q → IsFifo p → IsFifo q
step-IsFifo p _ (execute _ j i w) h = ground (arith, append_assoc p.started p.queue (j ∷ []))
step-IsFifo p _ (execute_unheard _ j w) h = ground (arith, append_assoc p.started p.queue (j ∷ []))
step-IsFifo p _ (wait _ i w e) h = h
step-IsFifo p _ (wake _ i w) h = h
step-IsFifo p _ (take _ i j js w e) h = ground (arith, append_assoc p.started (j ∷ []) js)
step-IsFifo p _ (finish _ i j w) h = h
step-IsFifo p _ (die _ i j w) h = h

-- In every state of the pool that steps of the threads reach from the new one, in whatever order
-- they come, the jobs started so far and then the jobs queued are the jobs submitted, in the
-- order of their submission: none is lost, repeated or overtaken.
pub Reach-IsFifo : (p : Pool) → Reach new_pool p → IsFifo p
Reach-IsFifo p here = refl
Reach-IsFifo p (next {q} before step) = step-IsFifo q p step (Reach-IsFifo q before)

length-set_worker : (i : ℕ) (v : Worker) (ws : List Worker) → length (set_worker i v ws) ≡ length ws
length-set_worker i v [] = refl
length-set_worker zero v (w ∷ ws) = refl
length-set_worker (suc i) v (w ∷ ws) = ground (arith, length-set_worker i v ws)

-- Every worker has died.
abbrev pub IsDead : Pool → Type 0
IsDead p = All (λ w. w ≡ dead) p.workers

dead_worker :
    (i : ℕ) (ws : List Worker) {w : Worker}
    → All (λ w. w ≡ dead) ws
    → worker i ws ≡ some w
    → w ≡ dead
dead_worker i [] {w} h e = cc
dead_worker zero (x ∷ ws) {w} (h, k) e = ground arith
dead_worker (suc i) (x ∷ ws) {w} (h, k) e = dead_worker i ws {w = w} k e

step-IsDead : (p q : Pool) → Step p q → IsDead p → IsDead q × (q.started ≡ p.started)
step-IsDead p _ (execute _ j i w) h =
    let gone = dead_worker i p.workers {w = waiting} h w in absurd (ground arith)
step-IsDead p _ (execute_unheard _ j w) h = (h, refl)
step-IsDead p _ (wait _ i w e) h =
    let gone = dead_worker i p.workers {w = ready} h w in absurd (ground arith)
step-IsDead p _ (wake _ i w) h =
    let gone = dead_worker i p.workers {w = waiting} h w in absurd (ground arith)
step-IsDead p _ (take _ i j js w e) h =
    let gone = dead_worker i p.workers {w = ready} h w in absurd (ground arith)
step-IsDead p _ (finish _ i j w) h =
    let gone = dead_worker i p.workers {w = busy j} h w in absurd (ground arith)
step-IsDead p _ (die _ i j w) h =
    let gone = dead_worker i p.workers {w = busy j} h w in absurd (ground arith)

-- Once an `Error` has ended every worker, no step starts a job any more, whatever is submitted.
pub Reach-IsDead : (p q : Pool) → IsDead p → Reach p q → q.started ≡ p.started
Reach-IsDead p q h r = (both p q h r).1
  where
    both : (p q : Pool) → IsDead p → Reach p q → IsDead q × (q.started ≡ p.started)
    both p z h here = (h, refl)
    both p z h (next {q} before step) =
        let (d, e) = both p q h before in
        let (d', e') = step-IsDead q z step d in (d', ground arith)
