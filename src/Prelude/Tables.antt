-- ===== src/Prelude/Tables.antt =====
-- A database table: rows under numeric ids, and the next id that the database hands out.
use Prim.Native.Nat.{ℕ, ◌+◌, ◌<◌}
use mathlib.Core.Path.{◌≡◌, refl}
use mathlib.Core.Logic.{inl, inr}
use mathlib.Core.Bool.{Bool, true, false}
use mathlib.Core.Option.{Option, none, some}
use mathlib.Core.Option
use mathlib.Core.List.{List, [], ◌∷◌, ◌++◌}
use native.Mathlib.Omega.{arith}
use graffi_tab_backend.Prelude.Tests.{◌==◌, if◌then◌else◌, Bool-cases}

module _ {ℓ} {A : Type ℓ} where
  -- `session.get(id)`
  abbrev pub find : ℕ → List (ℕ × A) → Option A
  find k [] = none
  find k ((j, v) ∷ t) = if k == j then some v else find k t

  -- A change of the row with this id, flushed at commit.
  abbrev pub update : ℕ → (A → A) → List (ℕ × A) → List (ℕ × A)
  update k f [] = []
  update k f ((j, v) ∷ t) = if k == j then (j, f v) ∷ t else (j, v) ∷ update k f t

  -- The row with this id goes.
  abbrev pub erase : ℕ → List (ℕ × A) → List (ℕ × A)
  erase k [] = []
  erase k ((j, v) ∷ t) = if k == j then t else (j, v) ∷ erase k t

  -- The rows that a `where` clause selects.
  abbrev pub select : (ℕ → A → Bool) → List (ℕ × A) → List (ℕ × A)
  select p [] = []
  select p ((j, v) ∷ t) = if p j v then (j, v) ∷ select p t else select p t

  -- Every id was handed out already, so it is below the counter.
  abbrev pub Below : ℕ → List (ℕ × A) → Type 0
  Below n [] = Unit
  Below n ((j, v) ∷ t) = (j < n) × Below n t

  pub find-update :
      (j k : ℕ) (f : A → A) (t : List (ℕ × A))
      → find j (update k f t) ≡ (if j == k then Option.map f (find j t) else find j t)
  find-update j k f [] = ground arith
  find-update j k f ((i, v) ∷ t) = ground (arith, find-update j k f t)

  pub Below-update : (n k : ℕ) (f : A → A) (t : List (ℕ × A)) → Below n t → Below n (update k f t)
  Below-update n k f [] h = tt
  Below-update n k f ((i, v) ∷ t) (p, h) = ground (arith, Below-update n k f t h)

  pub Below-append :
      (n : ℕ) (v : A) (t : List (ℕ × A)) → Below n t → Below (n + 1) (t ++ (n, v) ∷ [])
  Below-append n v [] h = ground arith
  Below-append n v ((i, w) ∷ t) (p, h) = ground (arith, Below-append n v t h)

  pub find-append :
      (j n : ℕ) (v : A) (t : List (ℕ × A))
      → Below n t
      → find j (t ++ (n, v) ∷ []) ≡ (if j == n then some v else find j t)
  find-append j n v [] h = refl
  find-append j n v ((i, w) ∷ t) (p, h) = ground (arith, find-append j n v t h)

  pub find_fresh : (n : ℕ) (t : List (ℕ × A)) → Below n t → find n t ≡ none
  find_fresh n [] h = refl
  find_fresh n ((i, w) ∷ t) (p, h) = ground (arith, find_fresh n t h)

  pub erase-append : (n : ℕ) (v : A) (t : List (ℕ × A)) → Below n t → erase n (t ++ (n, v) ∷ []) ≡ t
  erase-append n v [] h = ground arith
  erase-append n v ((i, w) ∷ t) (p, h) = ground (arith, erase-append n v t h)

  -- A change of a row that the test refuses before and after, or its end, is not seen.
  pub select-update_unseen :
      (p : ℕ → A → Bool) (k : ℕ) (f : A → A) (t : List (ℕ × A)) {v : A}
      → find k t ≡ some v
      → p k v ≡ false
      → p k (f v) ≡ false
      → select p (update k f t) ≡ select p t
  select-update_unseen p k f [] {v} e h h' = refl
  select-update_unseen p k f ((i, w) ∷ t) {v} e h h' =
      ground (arith, select-update_unseen p k f t {v = v})

  pub select-erase_unseen :
      (p : ℕ → A → Bool) (k : ℕ) (t : List (ℕ × A)) {v : A}
      → find k t ≡ some v
      → p k v ≡ false
      → select p (erase k t) ≡ select p t
  select-erase_unseen p k [] {v} e h = refl
  select-erase_unseen p k ((i, w) ∷ t) {v} e h = ground (arith, select-erase_unseen p k t {v = v})

  pub select-append :
      (p : ℕ → A → Bool) (t u : List (ℕ × A)) → select p (t ++ u) ≡ select p t ++ select p u
  select-append p [] u = refl
  select-append p ((i, w) ∷ t) u = ground (arith, select-append p t u)

  -- No id stands twice.
  abbrev pub IsKeyed : List (ℕ × A) → Type ℓ
  IsKeyed [] = Unit
  IsKeyed ((j, v) ∷ t) = (find j t ≡ none) × IsKeyed t

  pub update-IsKeyed : (k : ℕ) (f : A → A) (t : List (ℕ × A)) → IsKeyed t → IsKeyed (update k f t)
  update-IsKeyed k f [] h = tt
  update-IsKeyed k f ((i, v) ∷ t) (p, h) =
      ground (arith, update-IsKeyed k f t h, find-update i k f t)

  pub append-IsKeyed :
      (n : ℕ) (v : A) (t : List (ℕ × A)) → Below n t → IsKeyed t → IsKeyed (t ++ (n, v) ∷ [])
  append-IsKeyed n v [] b h = (refl, tt)
  append-IsKeyed n v ((i, w) ∷ t) (q, b) (p, h) =
      ground (arith, append-IsKeyed n v t b h, find-append i n v t b)

  -- A row that a query selects is the row of its id, and meets the test.
  pub select_head :
      (p : ℕ → A → Bool) (t : List (ℕ × A)) {k : ℕ} {v : A} {l : List (ℕ × A)}
      → IsKeyed t
      → select p t ≡ (k, v) ∷ l
      → (find k t ≡ some v) × (p k v ≡ true)
  select_head p [] h e = cc
  select_head p ((i, w) ∷ t) {k} {v} {l} (q, h) e = elim (Bool-cases (p i w)) [
    | inl hit ↦ ground arith
    | inr miss ↦ ground (arith, select_head p t {k = k} {v = v} {l = l} h)
  ]

  pub select_none :
      (p : ℕ → A → Bool) (t : List (ℕ × A)) (k : ℕ) {v : A}
      → select p t ≡ []
      → find k t ≡ some v
      → p k v ≡ false
  select_none p [] k h e = cc
  select_none p ((i, w) ∷ t) k {v} h e = ground (arith, select_none p t k {v = v})

  -- Where a query selects one row, no other row meets the test.
  pub select_one :
      (p : ℕ → A → Bool) (t : List (ℕ × A)) (j : ℕ) {k : ℕ} {v w : A}
      → IsKeyed t
      → select p t ≡ (k, v) ∷ []
      → find j t ≡ some w
      → p j w ≡ true
      → j ≡ k
  select_one p [] j h e f q = cc
  select_one p ((i, x) ∷ t) j {k = k} {v = v} {w = w} (n, h) e f q = elim (Bool-cases (p i x)) [
    | inl hit ↦ ground (arith, select_none p t j {v = w})
    | inr miss ↦ ground (arith, select_one p t j {k = k} {v = v} {w = w} h)
  ]

  -- Where a query selects one row, a change of that row that still meets the test changes the
  -- result alike.
  pub select-update :
      (p : ℕ → A → Bool) (f : A → A) (t : List (ℕ × A)) {k : ℕ} {v : A}
      → IsKeyed t
      → p k (f v) ≡ true
      → select p t ≡ (k, v) ∷ []
      → select p (update k f t) ≡ (k, f v) ∷ []
  select-update p f [] h q e = cc
  select-update p f ((i, w) ∷ t) {k = k} {v = v} (n, h) q e = elim (Bool-cases (p i w)) [
    | inl hit ↦ ground arith
    | inr miss ↦
        let found = select_head p t {k = k} {v = v} {l = []} h (ground arith) in
        ground (arith, select-update p f t {k = k} {v = v} h q)
  ]

-- A table with its counter.
pub record Table {ℓ} (A : Type ℓ) : Type ℓ where
  pub rows : List (ℕ × A)
  pub next : ℕ
