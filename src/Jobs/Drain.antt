-- ===== src/Jobs/Drain.antt =====
-- How long the workers of service/job/WorkQueue.java run on, and what they have done then.
use graffi_tab_backend.Prelude.{
  ℕ, zero, suc, ◌+◌, ◌*◌, ◌≤◌, ◌≡◌, ◌⊎◌, refl, inl, inr, Bool, true, false, some, List, [], ◌∷◌,
  ◌++◌, length, length-append, All, any, arith,
}
use mathlib.Core.List.{append-nil}
use graffi_tab_backend.Backend.{Job}
use graffi_tab_backend.Jobs.Queue.{
  Worker, ready, waiting, dead, busy, is_waiting, Pool, new_pool, worker, set_worker, Step, execute,
  execute_unheard, wait, wake, take, finish, die, Reach, here, next, IsDead, append_assoc,
}

-- What the threads of the pool do by themselves: no job is submitted, and nobody wakes without a
-- notification.
abbrev pub is_inner : {p q : Pool} → Step p q → Bool
is_inner (execute _ j i w) = false
is_inner (execute_unheard _ j w) = false
is_inner (wake _ i w) = false
is_inner (wait _ i w e) = true
is_inner (take _ i j js w e) = true
is_inner (finish _ i j w) = true
is_inner (die _ i j w) = true

-- A run of the threads, with the count of its steps.
pub data Runs (p : Pool) : ℕ → Pool → Type 0 where
  still : Runs p 0 p
  more : {n : ℕ} {q r : Pool} → Runs p n q → (s : Step q r) → is_inner s ≡ true → Runs p (suc n) r

abbrev weight : Worker → ℕ
weight (busy j) = 2
weight ready = 1
weight waiting = 0
weight dead = 0

-- One for a worker that is about to look into the queue.
abbrev looks : Worker → ℕ
looks ready = 1
looks _ = 0

abbrev waits : Worker → ℕ
waits waiting = 1
waits _ = 0

abbrev total : (Worker → ℕ) → List Worker → ℕ
total f [] = 0
total f (w ∷ ws) = f w + total f ws

-- Two steps for each job that waits and each that runs, one for each worker about to look.
abbrev pub steps_left : Pool → ℕ
steps_left p = 2 * length p.queue + total weight p.workers

total-set_worker :
    (f : Worker → ℕ) (i : ℕ) (v : Worker) (ws : List Worker) {w : Worker}
    → worker i ws ≡ some w
    → total f (set_worker i v ws) + f w ≡ total f ws + f v
total-set_worker f i v [] e = cc
total-set_worker f zero v (x ∷ ws) {w} e = ground arith
total-set_worker f (suc i) v (x ∷ ws) {w} e = ground (arith, total-set_worker f i v ws {w = w} e)

one_counted :
    (p q : Pool) (s : Step p q)
    → is_inner s ≡ true
    → (suc (steps_left q) ≤ steps_left p) × (q.started ++ q.queue ≡ p.started ++ p.queue)
one_counted p _ (execute _ j i w) h = cc
one_counted p _ (execute_unheard _ j w) h = cc
one_counted p _ (wake _ i w) h = cc
one_counted p _ (wait _ i w e) h =
    (ground (arith, total-set_worker weight i waiting p.workers {w = ready} w), refl)
one_counted p _ (take _ i j js w e) h = (
  ground (arith, total-set_worker weight i (busy j) p.workers {w = ready} w),
  ground (arith, append_assoc p.started (j ∷ []) js),
)
one_counted p _ (finish _ i j w) h =
    (ground (arith, total-set_worker weight i ready p.workers {w = busy j} w), refl)
one_counted p _ (die _ i j w) h =
    (ground (arith, total-set_worker weight i dead p.workers {w = busy j} w), refl)

all_counted :
    (p q : Pool) (n : ℕ)
    → Runs p n q
    → (n + steps_left q ≤ steps_left p) × (q.started ++ q.queue ≡ p.started ++ p.queue)
all_counted p q zero still = (omega arith, refl)
all_counted p r (suc n) (more {q} before s h) =
    let (count, same) = all_counted p q n before in
    let (count', same') = one_counted q r s h in (omega arith, ground arith)

-- No wakeup is lost: while a worker waits, there is one about to look for each job queued.
abbrev IsAwake : Pool → Type 0
IsAwake p = (total waits p.workers ≡ 0) ⊎ (length p.queue ≤ total looks p.workers)

none_waits : (ws : List Worker) → any is_waiting ws ≡ false → total waits ws ≡ 0
none_waits [] h = refl
none_waits (ready ∷ ws) h = ground (arith, none_waits ws h)
none_waits (waiting ∷ ws) h = cc
none_waits (dead ∷ ws) h = ground (arith, none_waits ws h)
none_waits (busy j ∷ ws) h = ground (arith, none_waits ws h)

step-IsAwake : (p q : Pool) → Step p q → IsAwake p → IsAwake q
step-IsAwake p _ (execute _ j i w) a =
    let w' = total-set_worker waits i ready p.workers {w = waiting} w in
    let l' = total-set_worker looks i ready p.workers {w = waiting} w in
    elim a [
      | inl z ↦ absurd (omega arith)
      | inr l ↦ inr (ground (arith, length-append p.queue (j ∷ [])))
    ]
step-IsAwake p _ (execute_unheard _ j w) a = inl (none_waits p.workers w)
step-IsAwake p _ (wait _ i w e) a = inr (ground arith)
step-IsAwake p _ (wake _ i w) a =
    let w' = total-set_worker waits i ready p.workers {w = waiting} w in
    let l' = total-set_worker looks i ready p.workers {w = waiting} w in
    elim a [ inl z ↦ absurd (omega arith) | inr l ↦ inr (omega arith) ]
step-IsAwake p _ (take _ i j js w e) a =
    let w' = total-set_worker waits i (busy j) p.workers {w = ready} w in
    let l' = total-set_worker looks i (busy j) p.workers {w = ready} w in
    elim a [ inl z ↦ inl (omega arith) | inr l ↦ inr (ground arith) ]
step-IsAwake p _ (finish _ i j w) a =
    let w' = total-set_worker waits i ready p.workers {w = (busy j)} w in
    let l' = total-set_worker looks i ready p.workers {w = (busy j)} w in
    elim a [ inl z ↦ inl (omega arith) | inr l ↦ inr (ground arith) ]
step-IsAwake p _ (die _ i j w) a =
    let w' = total-set_worker waits i dead p.workers {w = (busy j)} w in
    let l' = total-set_worker looks i dead p.workers {w = (busy j)} w in
    elim a [ inl z ↦ inl (omega arith) | inr l ↦ inr (ground arith) ]

Reach-IsAwake : (p : Pool) → Reach new_pool p → IsAwake p
Reach-IsAwake p here = inl refl
Reach-IsAwake p (next {q} before step) = step-IsAwake q p step (Reach-IsAwake q before)

Runs-IsAwake : (p q : Pool) (n : ℕ) → Runs p n q → IsAwake p → IsAwake q
Runs-IsAwake p q zero still a = a
Runs-IsAwake p r (suc n) (more {q} before s h) a = step-IsAwake q r s (Runs-IsAwake p q n before a)

-- Some thread can go on by itself.
abbrev pub CanGoOn : Pool → Type 0
CanGoOn q = (r : Pool) × (s : Step q r) × (is_inner s ≡ true)

-- A worker looks or runs, or all of them wait or have died.
abbrev Active : List Worker → Type 0
Active ws =
    ((i : ℕ) × (worker i ws ≡ some ready))
    ⊎ ((i : ℕ) × (j : Job) × (worker i ws ≡ some (busy j)))
    ⊎ All (λ w. (w ≡ waiting) ⊎ (w ≡ dead)) ws

Active-cases : (ws : List Worker) → Active ws
Active-cases [] = inr (inr tt)
Active-cases (ready ∷ ws) = inl (zero, refl)
Active-cases (busy j ∷ ws) = inr (inl (zero, j, refl))
Active-cases (waiting ∷ ws) = elim (Active-cases ws) [
  | inl (i, e) ↦ inl (suc i, e)
  | inr (inl (i, j, e)) ↦ inr (inl (suc i, j, e))
  | inr (inr idle) ↦ inr (inr (inl refl, idle))
]
Active-cases (dead ∷ ws) = elim (Active-cases ws) [
  | inl (i, e) ↦ inl (suc i, e)
  | inr (inl (i, j, e)) ↦ inr (inl (suc i, j, e))
  | inr (inr idle) ↦ inr (inr (inr refl, idle))
]

idle-looks : (ws : List Worker) → All (λ w. (w ≡ waiting) ⊎ (w ≡ dead)) ws → total looks ws ≡ 0
idle-looks [] h = refl
idle-looks (w ∷ ws) (inl e, h) = ground (arith, idle-looks ws h)
idle-looks (w ∷ ws) (inr e, h) = ground (arith, idle-looks ws h)

idle-dead :
    (ws : List Worker)
    → All (λ w. (w ≡ waiting) ⊎ (w ≡ dead)) ws
    → total waits ws ≡ 0
    → All (λ w. w ≡ dead) ws
idle-dead [] h z = tt
idle-dead (w ∷ ws) (inl e, h) z = absurd (ground arith)
idle-dead (w ∷ ws) (inr e, h) z = (e, idle-dead ws h (ground arith))

looks_on :
    (q : Pool) (i : ℕ) (js : List Job) → worker i q.workers ≡ some ready → q.queue ≡ js → CanGoOn q
looks_on q i [] w e = (_, wait q i w e, refl)
looks_on q i (j ∷ js) w e = (_, take q i j js w e, refl)

nil_of_length : (js : List Job) → length js ≤ 0 → js ≡ []
nil_of_length [] h = refl
nil_of_length (j ∷ js) h = absurd (ground arith)

goes_on : (q : Pool) → IsAwake q → CanGoOn q ⊎ IsDead q ⊎ (q.queue ≡ [])
goes_on q a = elim (Active-cases q.workers) [
  | inl (i, e) ↦ inl (looks_on q i q.queue e refl)
  | inr (inl (i, j, e)) ↦ inl (_, finish q i j e, refl)
  | inr (inr idle) ↦ elim a [
    | inl z ↦ inr (inl (idle-dead q.workers idle z))
    | inr l ↦ inr (inr (nil_of_length q.queue (ground (arith, idle-looks q.workers idle))))
  ]
]

-- From every state that steps of the threads reach from the new pool, a run in which nothing is
-- submitted and no thread wakes without a notification has at most two steps for each job that
-- waits and each that runs, and one for each worker about to look into the queue. At its end some
-- thread can go on by itself, or every worker has died, or the queue is empty, and the jobs that
-- waited have been started, in their order, and no others.
pub Runs-drain :
    (p q : Pool) (n : ℕ)
    → Reach new_pool p
    → Runs p n q
    → (n ≤ steps_left p)
      × (CanGoOn q ⊎ IsDead q ⊎ ((q.queue ≡ []) × (q.started ≡ p.started ++ p.queue)))
Runs-drain p q n reach run =
    let (count, same) = all_counted p q n run in
    let awake = Runs-IsAwake p q n run (Reach-IsAwake p reach) in
    (
      omega arith,
      elim (goes_on q awake) [
        | inl on ↦ inl on
        | inr (inl gone) ↦ inr (inl gone)
        | inr (inr empty) ↦ inr (inr (empty, ground (arith, append-nil q.started)))
      ],
    )
