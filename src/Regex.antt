-- ===== src/Regex.antt =====
-- Regular expressions as `String.matches` reads them: the whole text has to match.
-- The matcher takes derivatives, one code unit at a time.
pub mod Laws
use graffi_tab_backend.Prelude.{ℕ, Bool, true, false, ◌&&◌, ◌||◌, [], ◌∷◌}
use graffi_tab_backend.Prelude.Text.{Text}

pub data Regex : Type 0 where
  nothing epsilon : Regex
  class : (ℕ → Bool) → Regex
  seq alt : Regex → Regex → Regex
  star : Regex → Regex

-- `r+`, `r?`
abbrev pub plus : Regex → Regex
plus r = seq r (star r)

abbrev pub optional : Regex → Regex
optional r = alt r epsilon

-- Whether the empty text matches.
pub nullable : Regex → Bool
nullable nothing = false
nullable epsilon = true
nullable (class p) = false
nullable (seq r s) = nullable r && nullable s
nullable (alt r s) = nullable r || nullable s
nullable (star r) = true

abbrev when : Bool → Regex → Regex
when true r = r
when false r = nothing

-- What may follow once `c` was read.
pub derivative : ℕ → Regex → Regex
unfolding nullable
derivative c nothing = nothing
derivative c epsilon = nothing
derivative c (class p) = when (p c) epsilon
derivative c (seq r s) = alt (seq (derivative c r) s) (when (nullable r) (derivative c s))
derivative c (alt r s) = alt (derivative c r) (derivative c s)
derivative c (star r) = seq (derivative c r) (star r)

unfoldable pub matches : Regex → Text → Bool
unfolding nullable derivative
matches r [] = nullable r
matches r (c ∷ cs) = matches (derivative c r) cs
