-- ===== src/Streamables/Reactions/Flags.antt =====
-- The reports that `flag` of StreamableService sends.
use graffi_tab_backend.Prelude.{
  ℕ, ◌+◌, ◌≡◌, refl, inl, inr, true, none, some, List, [], ◌∷◌, ◌++◌, find, find-update, ◌==◌,
  if◌then◌else◌, arith, Option-cases, Bool-cases,
}
use native.Mathlib.Decide.{ℕ_discrete}
use graffi_tab_backend.Errors.{ok}
use graffi_tab_backend.Backend.{Backend, Mail}
use graffi_tab_backend.Backend
use graffi_tab_backend.Streamables.Reactions.{flag}

-- The calls of `flag` on the streamables listed, in turn.
pub flag_all : List ℕ → Backend → Backend
flag_all [] s = s
flag_all (x ∷ xs) s = flag_all xs (flag x s).1

-- The mails that report this streamable.
abbrev pub reports : ℕ → List Mail → ℕ
reports x [] = 0
reports x (Backend.flag y ∷ ms) = (if y == x then 1 else 0) + reports x ms
reports x (Backend.welcome_external to ∷ ms) = reports x ms
reports x (Backend.welcome to token ∷ ms) = reports x ms
reports x (Backend.reset_password to token ∷ ms) = reports x ms

reports-append : (x : ℕ) (ms ns : List Mail) → reports x (ms ++ ns) ≡ reports x ms + reports x ns
reports-append x [] ns = omega arith
reports-append x (Backend.flag y ∷ ms) ns = omega (arith, reports-append x ms ns)
reports-append x (Backend.welcome_external to ∷ ms) ns = reports-append x ms ns
reports-append x (Backend.welcome to token ∷ ms) ns = reports-append x ms ns
reports-append x (Backend.reset_password to token ∷ ms) ns = reports-append x ms ns

-- The reports still to come: one while the streamable is there and not flagged.
abbrev pub pending : ℕ → Backend → ℕ
pending x s = elim (find x s.db.streamables.rows) [
  | none ↦ 0
  | some v ↦ if v.is_flagged then 0 else 1
]

flag_step :
    (x y : ℕ) (s : Backend)
    → reports x (flag y s).1.mails + pending x (flag y s).1 ≡ reports x s.mails + pending x s
unfolding flag
flag_step x y s = elim (Option-cases (find y s.db.streamables.rows)) [
  | inl e ↦ ground arith
  | inr (v, e) ↦ elim (Bool-cases v.is_flagged) [
    | inl old ↦ ground arith
    | inr new ↦ elim (ℕ_discrete x y) [
      | yes same ↦ ground (
        arith,
        reports-append x s.mails (Backend.flag y ∷ []),
        find-update x y (λ w. record w { is_flagged = true }) s.db.streamables.rows,
      )
      | no other ↦ ground (
        arith,
        reports-append x s.mails (Backend.flag y ∷ []),
        find-update x y (λ w. record w { is_flagged = true }) s.db.streamables.rows,
      )
    ]
  ]
]

-- Whatever streamables are flagged, in whatever order and however often, the reports of a
-- streamable that were sent, plus one while it is there and not flagged, stay as many: it is
-- reported once at most.
pub reports-flag_all :
    (x : ℕ) (ys : List ℕ) (s : Backend)
    → reports x (flag_all ys s).mails + pending x (flag_all ys s) ≡ reports x s.mails + pending x s
unfolding flag_all
reports-flag_all x [] s = refl
reports-flag_all x (y ∷ ys) s = omega (arith, reports-flag_all x ys (flag y s).1, flag_step x y s)

-- Every streamable that is flagged by a call that finds it is reported: afterwards no report
-- of it is due.
pub flag_done : (x id : ℕ) (s : Backend) → (flag x s).0 ≡ ok id → pending x (flag x s).1 ≡ 0
unfolding flag
flag_done x id s e = elim (Option-cases (find x s.db.streamables.rows)) [
  | inl h ↦ ground arith
  | inr (v, h) ↦ elim (Bool-cases v.is_flagged) [
    | inl old ↦ ground arith
    | inr new ↦
        ground (arith, find-update x x (λ w. record w { is_flagged = true }) s.db.streamables.rows)
  ]
]
