-- ===== src/Prelude/Sorting.antt =====
-- `order by` of a query, the greatest first. Rows with equal keys keep their order.
use Prim.Native.Nat.{ℕ, suc, ◌≤◌}
use mathlib.Core.Path.{◌≡◌, refl}
use mathlib.Core.Logic.{inl, inr}
use mathlib.Core.Bool.{Bool, false, ◌&&◌, ◌||◌}
use mathlib.Core.Option.{none, some}
use mathlib.Core.List.{List, [], ◌∷◌}
use native.Mathlib.Omega.{arith}
use graffi_tab_backend.Prelude.Tests.{leb, ◌==◌, if◌then◌else◌, Bool-cases}
use graffi_tab_backend.Prelude.Lists.{All, any, length}
use graffi_tab_backend.Prelude.Tables.{select, find, IsKeyed}

module _ {A : Type 0} where
  abbrev pub insert : (A → ℕ) → ℕ × A → List (ℕ × A) → List (ℕ × A)
  insert key x [] = x ∷ []
  insert key x (y ∷ ys) = if leb (key y.1) (key x.1) then x ∷ y ∷ ys else y ∷ insert key x ys

  abbrev pub order_by : (A → ℕ) → List (ℕ × A) → List (ℕ × A)
  order_by key [] = []
  order_by key (x ∷ xs) = insert key x (order_by key xs)

  length-insert :
      (key : A → ℕ) (x : ℕ × A) (t : List (ℕ × A)) → length (insert key x t) ≡ suc (length t)
  length-insert key x [] = refl
  length-insert key x (y ∷ t) = ground (arith, length-insert key x t)

  pub length-order_by : (key : A → ℕ) (t : List (ℕ × A)) → length (order_by key t) ≡ length t
  length-order_by key [] = refl
  length-order_by key (x ∷ t) =
      ground (arith, length-insert key x (order_by key t), length-order_by key t)

  -- Whether a list of rows has the id.
  abbrev pub listed : ℕ → List (ℕ × A) → Bool
  listed id [] = false
  listed id ((j, v) ∷ t) = id == j || listed id t

  listed-insert :
      (key : A → ℕ) (id j : ℕ) (v : A) (t : List (ℕ × A))
      → listed id (insert key (j, v) t) ≡ (id == j || listed id t)
  listed-insert key id j v [] = refl
  listed-insert key id j v ((k, w) ∷ t) = ground (arith, listed-insert key id j v t)

  pub listed-order_by :
      (key : A → ℕ) (id : ℕ) (t : List (ℕ × A)) → listed id (order_by key t) ≡ listed id t
  listed-order_by key id [] = refl
  listed-order_by key id ((j, v) ∷ t) =
      ground (arith, listed-insert key id j v (order_by key t), listed-order_by key id t)

  -- No row comes after one with a smaller key.
  abbrev pub IsSorted : (A → ℕ) → List (ℕ × A) → Type 0
  IsSorted key [] = Unit
  IsSorted key ((j, v) ∷ t) = All (λ x. key x.1 ≤ key v) t × IsSorted key t

  All-insert :
      (key : A → ℕ) (n j : ℕ) (v : A) (t : List (ℕ × A))
      → key v ≤ n
      → All (λ x. key x.1 ≤ n) t
      → All (λ x. key x.1 ≤ n) (insert key (j, v) t)
  All-insert key n j v [] h a = (h, tt)
  All-insert key n j v ((k, w) ∷ t) h (p, a) = ground (arith, All-insert key n j v t h a)

  All-weaken :
      (key : A → ℕ) (m n : ℕ) (t : List (ℕ × A))
      → m ≤ n
      → All (λ x. key x.1 ≤ m) t
      → All (λ x. key x.1 ≤ n) t
  All-weaken key m n [] h a = tt
  All-weaken key m n ((k, w) ∷ t) h (p, a) = (omega arith, All-weaken key m n t h a)

  insert-IsSorted :
      (key : A → ℕ) (j : ℕ) (v : A) (t : List (ℕ × A))
      → IsSorted key t
      → IsSorted key (insert key (j, v) t)
  insert-IsSorted key j v [] s = (tt, tt)
  insert-IsSorted key j v ((k, w) ∷ t) (a, s) = elim (Bool-cases (leb (key w) (key v))) [
    | inl below ↦
        let le : key w ≤ key v = ground arith in
        ground (arith, All-weaken key (key w) (key v) t le a)
    | inr above ↦
        let le : key v ≤ key w = ground arith in
        ground (arith, All-insert key (key w) j v t le a, insert-IsSorted key j v t s)
  ]

  -- What `order by` promises.
  pub order_by-IsSorted : (key : A → ℕ) (t : List (ℕ × A)) → IsSorted key (order_by key t)
  order_by-IsSorted key [] = tt
  order_by-IsSorted key ((j, v) ∷ t) =
      insert-IsSorted key j v (order_by key t) (order_by-IsSorted key t)

  any-insert :
      (key : A → ℕ) (p : ℕ × A → Bool) (x : ℕ × A) (t : List (ℕ × A))
      → any p (insert key x t) ≡ (p x || any p t)
  any-insert key p x [] = refl
  any-insert key p x (y ∷ t) = ground (arith, any-insert key p x t)

  -- Ordering keeps the rows.
  pub any-order_by :
      (key : A → ℕ) (p : ℕ × A → Bool) (t : List (ℕ × A)) → any p (order_by key t) ≡ any p t
  any-order_by key p [] = refl
  any-order_by key p (x ∷ t) =
      ground (arith, any-insert key p x (order_by key t), any-order_by key p t)

  -- A selected row meets the test of the query too.
  pub any-select :
      (q : ℕ → A → Bool) (p : ℕ × A → Bool) (t : List (ℕ × A))
      → any p (select q t) ≡ any (λ x. q x.0 x.1 && p x) t
  any-select q p [] = refl
  any-select q p ((j, v) ∷ t) = ground (arith, any-select q p t)

  listed-select_absent :
      (p : ℕ → A → Bool) (id : ℕ) (t : List (ℕ × A))
      → find id t ≡ none
      → listed id (select p t) ≡ false
  listed-select_absent p id [] h = refl
  listed-select_absent p id ((j, v) ∷ t) h = ground (arith, listed-select_absent p id t)

  -- A query selects an id exactly when its row is there and meets the test.
  pub listed-select :
      (p : ℕ → A → Bool) (id : ℕ) (t : List (ℕ × A))
      → IsKeyed t
      → listed id (select p t) ≡ elim (find id t) [ none ↦ false | some v ↦ p id v ]
  listed-select p id [] h = refl
  listed-select p id ((j, v) ∷ t) (n, h) = elim (Bool-cases (id == j)) [
    | inl same ↦ elim (Bool-cases (p j v)) [
      | inl hit ↦ ground arith
      | inr miss ↦ ground (arith, listed-select_absent p id t)
    ]
    | inr other ↦ ground (arith, listed-select p id t h)
  ]
