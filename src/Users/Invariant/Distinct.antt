-- ===== src/Users/Invariant/Distinct.antt =====
-- Columns of the users' table without repetition.
use graffi_tab_backend.Prelude.{
  ℕ, ◌≡◌, refl, inl, inr, false, not, ◌&&◌, List, [], ◌∷◌, ◌++◌, ◌==◌, find, update, select,
  IsKeyed, none, arith, Bool-cases,
}
use native.Mathlib.Decide.{ℕ_discrete}
use graffi_tab_backend.Prelude.Text.{Text, text_eq, text_eq_iff}
use graffi_tab_backend.Model.Account.{User}

module _ (column : User → Text) where
  -- No row has the text.
  abbrev pub IsAbsent : Text → List (ℕ × User) → Type 0
  IsAbsent name t = select (λ _ u. text_eq (column u) name) t ≡ []

  abbrev pub IsDistinct : List (ℕ × User) → Type 0
  IsDistinct [] = Unit
  IsDistinct ((j, u) ∷ t) = IsAbsent (column u) t × IsDistinct t

  text_eq_sym : (a b : Text) → text_eq a b ≡ false → text_eq b a ≡ false
  text_eq_sym a b h = ground (arith, text_eq_iff a b, text_eq_iff b a)

  IsAbsent-append :
      (name : Text) (n : ℕ) (u : User) (t : List (ℕ × User))
      → IsAbsent name t
      → text_eq (column u) name ≡ false
      → IsAbsent name (t ++ (n, u) ∷ [])
  IsAbsent-append name n u [] h e = ground arith
  IsAbsent-append name n u ((j, v) ∷ t) h e = ground (arith, IsAbsent-append name n u t)

  -- A new row whose text no row has.
  pub append-IsDistinct :
      (n : ℕ) (u : User) (t : List (ℕ × User))
      → IsAbsent (column u) t
      → IsDistinct t
      → IsDistinct (t ++ (n, u) ∷ [])
  append-IsDistinct n u [] h d = (refl, tt)
  append-IsDistinct n u ((j, v) ∷ t) h (a, d) = ground (
    arith,
    append-IsDistinct n u t,
    IsAbsent-append (column v) n u t a,
    text_eq_sym (column v) (column u),
  )

  -- A change of a row that no other row's text meets.
  IsAbsent-update :
      (name : Text) (k : ℕ) (f : User → User) (t : List (ℕ × User))
      → ((u : User) → text_eq (column (f u)) name ≡ false)
      → IsAbsent name t
      → IsAbsent name (update k f t)
  IsAbsent-update name k f [] e h = refl
  IsAbsent-update name k f ((j, v) ∷ t) e h = ground (arith, IsAbsent-update name k f t e, e v)

  IsAbsent-update_same :
      (name : Text) (k : ℕ) (f : User → User) (t : List (ℕ × User))
      → ((u : User) → column (f u) ≡ column u)
      → IsAbsent name t
      → IsAbsent name (update k f t)
  IsAbsent-update_same name k f [] e h = refl
  IsAbsent-update_same name k f ((j, v) ∷ t) e h = elim (Bool-cases (text_eq (column v) name)) [
    | inl hit ↦ ground arith
    | inr miss ↦
        let miss' : text_eq (column (f v)) name ≡ false = rw (e v) miss in
        ground (arith, IsAbsent-update_same name k f t e)
  ]

  -- A change that leaves the column alone.
  pub update-IsDistinct :
      (k : ℕ) (f : User → User) (t : List (ℕ × User))
      → ((u : User) → column (f u) ≡ column u)
      → IsDistinct t
      → IsDistinct (update k f t)
  update-IsDistinct k f [] e d = tt
  update-IsDistinct k f ((j, v) ∷ t) e (a, d) = elim (ℕ_discrete k j) [
    | yes same ↦ let a' : IsAbsent (column (f v)) t = rw (e v) a in ground arith
    | no other ↦
        ground (arith, update-IsDistinct k f t e d, IsAbsent-update_same (column v) k f t e a)
  ]

  -- The rows of other ids that have the text, which is the query of an edit.
  abbrev pub others : Text → ℕ → List (ℕ × User) → List (ℕ × User)
  others name k = select (λ j u. text_eq (column u) name && not (j == k))

  others-IsAbsent :
      (name : Text) (k : ℕ) (t : List (ℕ × User))
      → find k t ≡ none
      → others name k t ≡ []
      → IsAbsent name t
  others-IsAbsent name k [] e h = refl
  others-IsAbsent name k ((j, v) ∷ t) e h = ground (arith, others-IsAbsent name k t)

  -- A change that sets the column of one row to a text that no other row has.
  pub update_column-IsDistinct :
      (name : Text) (k : ℕ) (f : User → User) (t : List (ℕ × User))
      → ((u : User) → column (f u) ≡ name)
      → IsKeyed t
      → others name k t ≡ []
      → IsDistinct t
      → IsDistinct (update k f t)
  update_column-IsDistinct name k f [] e i h d = tt
  update_column-IsDistinct name k f ((j, v) ∷ t) e (n, i) h (a, d) = elim (ℕ_discrete k j) [
    | yes same ↦
        let absent : IsAbsent name t = others-IsAbsent name k t (ground arith) (ground arith) in
        let absent' : IsAbsent (column (f v)) t = rw (e v) absent in ground arith
    | no other ↦
        let differs : text_eq name (column v) ≡ false =
          text_eq_sym (column v) name (ground arith) in
        ground (
          arith,
          update_column-IsDistinct name k f t e i,
          IsAbsent-update (column v) k f t (λ u. rw (e u) differs) a,
        )
  ]
