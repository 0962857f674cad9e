-- ===== src/Searches/Plain.antt =====
-- What `like` finds for a text without wildcards between per-cent signs.
use graffi_tab_backend.Prelude.{
  ℕ, ◌≡◌, ◌≢◌, ◌∙◌, refl, ap, Bool, true, false, ◌&&◌, ◌||◌, List, [], ◌∷◌, ◌++◌, All, arith,
}
use graffi_tab_backend.Prelude.Text.{Text}
use graffi_tab_backend.Searches.{
  Collation, Token, any_text, literal, tokens_from, fits, matches, anywhere,
}

-- A code unit that stands for itself in a pattern.
abbrev pub IsPlain : ℕ → Type 0
IsPlain c = (c ≢ b'%') × (c ≢ b'_') × (c ≢ b'\\')

literals : Text → List Token
literals [] = any_text ∷ []
literals (c ∷ q) = literal c ∷ literals q

tokens_from_plain : (q : Text) → All IsPlain q → tokens_from false (q ++ b'%' ∷ []) ≡ literals q
unfolding literals
tokens_from_plain [] h = refl
tokens_from_plain (c ∷ q) ((p, p', p''), h) = ground (arith, tokens_from_plain q h)

module _ (collation : Collation) where
  abbrev pub starts : Text → Text → Bool
  starts [] t = true
  starts (p ∷ q) [] = false
  starts (p ∷ q) (c ∷ t) = collation.same_code p c && starts q t

  -- Whether the text stands somewhere in the other.
  abbrev pub occurs : Text → Text → Bool
  occurs q [] = starts q []
  occurs q (c ∷ t) = starts q (c ∷ t) || occurs q t

  fits_rest : (t : Text) → fits collation (any_text ∷ []) t ≡ true
  unfolding fits
  fits_rest [] = refl
  fits_rest (c ∷ t) = ground (arith, fits_rest t)

  fits-literals : (q t : Text) → fits collation (literals q) t ≡ starts q t
  unfolding fits literals
  fits-literals [] t = fits_rest t
  fits-literals (p ∷ q) [] = refl
  fits-literals (p ∷ q) (c ∷ t) = ground (arith, fits-literals q t)

  fits_anywhere : (q t : Text) → fits collation (any_text ∷ literals q) t ≡ occurs q t
  unfolding fits
  fits_anywhere q [] = fits-literals q []
  fits_anywhere q (c ∷ t) = ground (arith, fits-literals q (c ∷ t), fits_anywhere q t)

  -- A plain text between two per-cent signs fits exactly where it occurs.
  pub matches-anywhere :
      (q t : Text) → All IsPlain q → matches collation (anywhere q) t ≡ occurs q t
  unfolding matches
  matches-anywhere q t h =
      ap (λ ps. fits collation (any_text ∷ ps) t) (tokens_from_plain q h) ∙ fits_anywhere q t
