-- ===== src/Users/Commands/Statuses.antt =====
-- Which account status may follow which.
pub mod Steps
pub mod Runs
use graffi_tab_backend.Prelude.{
  ℕ, ◌≡◌, refl, inl, inr, Bool, true, false, Option, none, some, List, [], ◌∷◌, ◌++◌, ◌+◌, find,
  update, find-update, arith, Option-cases,
}
use mathlib.Core.Option
use native.Mathlib.Decide.{ℕ_discrete}
use graffi_tab_backend.Model.Account.{
  AccountStatus, pending_activation, active, reset_password, status_eq, User,
}
use graffi_tab_backend.Backend.{Backend}

-- The changes of status: an activation, a completed reset, and a lock or a request for a reset
-- from any status.
abbrev pub may_become : AccountStatus → AccountStatus → Bool
may_become pending_activation active = true
may_become reset_password active = true
may_become a reset_password = true
may_become a b = status_eq a b

-- The status of a user who was there before, in a later table: the user is still there.
abbrev pub may_become? : Option User → Option User → Bool
may_become? none later = true
may_become? (some u) none = false
may_become? (some u) (some v) = may_become u.account_status v.account_status

-- What happens to the row of `x` between two states.
abbrev pub Evolves : ℕ → Backend → Backend → Type 0
Evolves x s s' = may_become? (find x s.db.users.rows) (find x s'.db.users.rows) ≡ true

pub may_become_refl : (a : AccountStatus) → may_become a a ≡ true
may_become_refl a = ground arith

pub same-Evolves : (x : ℕ) (t : List (ℕ × User)) → may_become? (find x t) (find x t) ≡ true
same-Evolves x t = elim (Option-cases (find x t)) [
  | inl e ↦ ground arith
  | inr (u, e) ↦ ground (arith, may_become_refl u.account_status)
]

pub update-Evolves :
    (x k : ℕ) (f : User → User) (t : List (ℕ × User))
    → ((u : User) → find k t ≡ some u → may_become u.account_status (f u).account_status ≡ true)
    → may_become? (find x t) (find x (update k f t)) ≡ true
update-Evolves x k f t h = elim (Option-cases (find x t)) [
  | inl e ↦ ground (arith, find-update x k f t)
  | inr (u, e) ↦ elim (ℕ_discrete x k) [
    | yes same ↦ ground (arith, find-update x k f t, h u)
    | no other ↦ ground (arith, find-update x k f t, may_become_refl u.account_status)
  ]
]

pub append-Evolves :
    (x n : ℕ) (v : User) (t : List (ℕ × User))
    → may_become? (find x t) (find x (t ++ (n, v) ∷ [])) ≡ true
append-Evolves x n v [] = refl
append-Evolves x n v ((j, u) ∷ t) =
    ground (arith, append-Evolves x n v t, may_become_refl u.account_status)

-- A change that leaves the status alone.
pub keep-Evolves :
    (x k : ℕ) (f : User → User) (t : List (ℕ × User))
    → ((u : User) → (f u).account_status ≡ u.account_status)
    → may_become? (find x t) (find x (update k f t)) ≡ true
keep-Evolves x k f t h = update-Evolves x k f t λ u _. rw (h u) (may_become_refl u.account_status)

pub to_reset : (a : AccountStatus) → may_become a reset_password ≡ true
to_reset a = ground arith
