-- ===== src/Regex/Laws.antt =====
-- The language of an expression, given independently of the matcher.
use graffi_tab_backend.Prelude.{
  ℕ, ◌≡◌, refl, ap, sym, ◌∙◌, ◌⊎◌, inl, inr, ◌↔◌, Bool, true, false, [], ◌∷◌, ◌++◌, arith,
  Bool-cases,
}
use graffi_tab_backend.Prelude.Text.{Text}
use graffi_tab_backend.Regex.{
  Regex, nothing, epsilon, class, seq, alt, star, when, nullable, derivative, matches,
}

-- A text that is cut into parts with the property.
pub data Star (P : Text → Type 0) : Text → Type 0 where
  done : {t : Text} → t ≡ [] → Star P t
  more : {t : Text} (u v : Text) → P u → Star P v → t ≡ u ++ v → Star P t

-- The language of an expression.
abbrev pub Language : Regex → Text → Type 0
Language nothing t = ⊥
Language epsilon t = t ≡ []
Language (class p) t = (c : ℕ) × (p c ≡ true) × (t ≡ c ∷ [])
Language (seq r s) t = (u : Text) × (v : Text) × Language r u × Language s v × (t ≡ u ++ v)
Language (alt r s) t = Language r t ⊎ Language s t
Language (star r) t = Star (Language r) t

when_sound : (b : Bool) (r : Regex) (t : Text) → Language (when b r) t → (b ≡ true) × Language r t
when_sound true r t m = (refl, m)
when_sound false r t m = absurd m

when_complete : (b : Bool) (r : Regex) (t : Text) → b ≡ true → Language r t → Language (when b r) t
when_complete true r t e m = m
when_complete false r t e m = cc

nullable_sound : (r : Regex) → nullable r ≡ true → Language r []
unfolding nullable
nullable_sound nothing h = cc
nullable_sound epsilon h = refl
nullable_sound (class p) h = cc
nullable_sound (seq r s) h =
    ([], [], nullable_sound r (ground arith), nullable_sound s (ground arith), refl)
nullable_sound (alt r s) h = elim (Bool-cases (nullable r)) [
  | inl e ↦ inl (nullable_sound r e)
  | inr e ↦ inr (nullable_sound s (ground arith))
]
nullable_sound (star r) h = done refl

nil_of_append : (u v : Text) → [] ≡ u ++ v → (u ≡ []) × (v ≡ [])
nil_of_append [] v e = (refl, sym e)
nil_of_append (c ∷ u) v e = cc

nullable_complete : (r : Regex) (t : Text) → t ≡ [] → Language r t → nullable r ≡ true
unfolding nullable
nullable_complete nothing t e m = absurd m
nullable_complete epsilon t e m = refl
nullable_complete (class p) t e (c, _, e') = cc
nullable_complete (seq r s) t e (u, v, mu, mv, e') =
    let (eu, ev) = nil_of_append u v (sym e ∙ e') in
    ground (arith, nullable_complete r u eu mu, nullable_complete s v ev mv)
nullable_complete (alt r s) t e (inl m) = ground (arith, nullable_complete r t e m)
nullable_complete (alt r s) t e (inr m) = ground (arith, nullable_complete s t e m)
nullable_complete (star r) t e m = refl

derivative_sound : (c : ℕ) (r : Regex) (t : Text) → Language (derivative c r) t → Language r (c ∷ t)
unfolding derivative
derivative_sound c nothing t m = m
derivative_sound c epsilon t m = absurd m
derivative_sound c (class p) t m =
    let (e, e') = when_sound (p c) epsilon t m in (c, e, ap (λ l. c ∷ l) e')
derivative_sound c (seq r s) t (inl (u, v, mu, mv, e)) =
    (c ∷ u, v, derivative_sound c r u mu, mv, ap (λ l. c ∷ l) e)
derivative_sound c (seq r s) t (inr m) =
    let (e, m') = when_sound (nullable r) (derivative c s) t m in
    ([], c ∷ t, nullable_sound r e, derivative_sound c s t m', refl)
derivative_sound c (alt r s) t (inl m) = inl (derivative_sound c r t m)
derivative_sound c (alt r s) t (inr m) = inr (derivative_sound c s t m)
derivative_sound c (star r) t (u, v, mu, mv, e) =
    more (c ∷ u) v (derivative_sound c r u mu) mv (ap (λ l. c ∷ l) e)

-- A text cut in two that begins with `c`: the first part is empty, or begins with `c`.
cut :
    (c : ℕ) (t u v : Text)
    → c ∷ t ≡ u ++ v
    → ((u ≡ []) × (c ∷ t ≡ v)) ⊎ ((u' : Text) × (u ≡ c ∷ u') × (t ≡ u' ++ v))
cut c t [] v e = inl (refl, e)
cut c t (d ∷ u) v e = inr (u, cc, cc)

module _ (c : ℕ) (P Q : Text → Type 0) (step : (t : Text) → P (c ∷ t) → Q t) where
  Star-cut :
      (t s : Text) → s ≡ c ∷ t → Star P s → (u : Text) × (v : Text) × Q u × Star P v × (t ≡ u ++ v)
  Star-cut t s e (done e') = cc
  Star-cut t s e (more u v pu sv e') = elim (cut c t u v (sym e ∙ e')) [
    | inl (_, ev) ↦ Star-cut t v (sym ev) sv
    | inr (u', eu, et) ↦ (u', v, step u' (rw eu at pu), sv, et)
  ]

derivative_complete :
    (c : ℕ) (r : Regex) (t : Text) → Language r (c ∷ t) → Language (derivative c r) t
unfolding derivative
derivative_complete c nothing t m = m
derivative_complete c epsilon t m = cc
derivative_complete c (class p) t (d, pd, e) =
    let same : d ≡ c = cc in when_complete (p c) epsilon t (rw same at pd) (cc)
derivative_complete c (seq r s) t (u, v, mu, mv, e) = elim (cut c t u v e) [
  | inl (eu, ev) ↦ inr (
      when_complete (nullable r) _ t (nullable_complete r u eu mu)
        (derivative_complete c s t (rw (← ev) at mv)))
  | inr (u', eu, et) ↦ inl (u', v, derivative_complete c r u' (rw eu at mu), mv, et)
]
derivative_complete c (alt r s) t (inl m) = inl (derivative_complete c r t m)
derivative_complete c (alt r s) t (inr m) = inr (derivative_complete c s t m)
derivative_complete c (star r) t m =
    Star-cut c (Language r) (Language (derivative c r)) (derivative_complete c r) t (c ∷ t) refl m

-- `matches` accepts a text exactly when the text is in the language of the expression.
pub matches_iff : (r : Regex) (t : Text) → (matches r t ≡ true) ↔ Language r t
unfolding matches
matches_iff r [] = (nullable_sound r, nullable_complete r [] refl)
matches_iff r (c ∷ t) = (
  λ h. derivative_sound c r t ((matches_iff (derivative c r) t).0 h),
  λ m. (matches_iff (derivative c r) t).1 (derivative_complete c r t m),
)
