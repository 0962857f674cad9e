-- ===== src/DeepLinks/Debug.antt =====
-- `isDebugEnvironment` of deep-link.js.
use graffi_tab_backend.Prelude.{◌≡◌, refl, ◌↔◌, inl, inr, true, [], ◌∷◌, ◌++◌, arith, Bool-cases}
use graffi_tab_backend.Prelude.Text.{Text, codes}
use graffi_tab_backend.DeepLinks.{starts_with, includes, is_debug_environment}

starts_with-append : (s after : Text) → starts_with s (s ++ after) ≡ true
starts_with-append [] after = ground arith
starts_with-append (c ∷ cs) after = ground (arith, starts_with-append cs after)

starts_with_sound : (s t : Text) → starts_with s t ≡ true → (after : Text) × (t ≡ s ++ after)
starts_with_sound [] t h = (t, refl)
starts_with_sound (c ∷ cs) [] h = absurd (ground arith)
starts_with_sound (c ∷ cs) (d ∷ ds) h =
    let (after, e) = starts_with_sound cs ds (ground arith) in (after, ground arith)

includes_sound :
    (s t : Text)
    → includes s t ≡ true
    → (before : Text) × (after : Text) × (t ≡ before ++ (s ++ after))
includes_sound s [] h = let (after, e) = starts_with_sound s [] h in ([], after, e)
includes_sound s (d ∷ ds) h = elim (Bool-cases (starts_with s (d ∷ ds))) [
  | inl here ↦ let (after, e) = starts_with_sound s (d ∷ ds) here in ([], after, e)
  | inr there ↦
      let (before, after, e) = includes_sound s ds (ground arith) in
      (d ∷ before, after, ground arith)
]

includes_here : (s t : Text) → starts_with s t ≡ true → includes s t ≡ true
includes_here s [] h = h
includes_here s (d ∷ ds) h = ground arith

includes_complete : (s before after : Text) → includes s (before ++ (s ++ after)) ≡ true
includes_complete s [] after = includes_here s (s ++ after) (starts_with-append s after)
includes_complete s (d ∷ before) after = ground (arith, includes_complete s before after)

-- A host counts as the debug environment exactly when "dev" stands somewhere in it.
pub is_debug_environment_iff :
    (host : Text)
    → (is_debug_environment host ≡ true)
      ↔ ((before : Text) × (after : Text) × (host ≡ before ++ (codes "dev" ++ after)))
unfolding is_debug_environment
is_debug_environment_iff host = (
  includes_sound (codes "dev") host,
  λ h. let (before, after, e) = h in rw e (includes_complete (codes "dev") before after),
)
