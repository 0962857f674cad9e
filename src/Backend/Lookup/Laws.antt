-- ===== src/Backend/Lookup/Laws.antt =====
-- What the queries find.
use graffi_tab_backend.Prelude.{
  ℕ, ◌≡◌, refl, ◌⊎◌, inl, inr, Bool, true, false, Option, none, some, List, [], ◌∷◌, find, select,
  IsKeyed, select_head, select_none, select_one,
}
use graffi_tab_backend.Errors.{Failure, Result, ok, err}
use graffi_tab_backend.Backend.Lookup.{unique_result}

-- How a unique query ends.
pub Query-cases {ℓ} :
    {A : Type ℓ} (r : Result (Option A))
    → (r ≡ ok none) ⊎ ((a : A) × (r ≡ ok (some a))) ⊎ ((e : Failure) × (r ≡ err e))
Query-cases (ok none) = inl refl
Query-cases (ok (some a)) = inr (inl (a, refl))
Query-cases (err e) = inr (inr (e, refl))

pub unique_result-eq-some {ℓ} :
    {A : Type ℓ} (l : List A) {a : A} → unique_result l ≡ ok (some a) → l ≡ a ∷ []
unique_result-eq-some [] e = cc
unique_result-eq-some (a ∷ []) e = cc
unique_result-eq-some (a ∷ b ∷ l) e = cc

pub unique_result-eq-none {ℓ} : {A : Type ℓ} (l : List A) → unique_result l ≡ ok none → l ≡ []
unique_result-eq-none [] e = refl
unique_result-eq-none (a ∷ []) e = cc
unique_result-eq-none (a ∷ b ∷ l) e = cc

module _ {ℓ} {A : Type ℓ} (p : ℕ → A → Bool) (t : List (ℕ × A)) where
  -- The row that a unique query returns is the row of its id, and meets the test.
  pub unique-found :
      {k : ℕ} {v : A}
      → IsKeyed t
      → unique_result (select p t) ≡ ok (some (k, v))
      → (find k t ≡ some v) × (p k v ≡ true)
  unique-found h e = select_head p t h (unique_result-eq-some (select p t) e)

  -- Where it returns null, no row meets the test.
  pub unique-missing :
      (k : ℕ) {v : A} → unique_result (select p t) ≡ ok none → find k t ≡ some v → p k v ≡ false
  unique-missing k e = select_none p t k (unique_result-eq-none (select p t) e)

  -- No other row meets the test.
  pub unique-only :
      (j : ℕ) {k : ℕ} {v w : A}
      → IsKeyed t
      → unique_result (select p t) ≡ ok (some (k, v))
      → find j t ≡ some w
      → p j w ≡ true
      → j ≡ k
  unique-only j h e f q = select_one p t j h (unique_result-eq-some (select p t) e) f q
