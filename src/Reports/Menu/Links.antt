-- ===== src/Reports/Menu/Links.antt =====
-- `getLink` of menu.js: the parts of a path.
use graffi_tab_backend.Prelude.{
  ◌≡◌, ◌⊎◌, refl, inl, inr, false, List, [], ◌∷◌, ◌++◌, ◌==◌, arith, Bool-cases,
}
use graffi_tab_backend.Prelude.Text.{Text, contains_code}
use graffi_tab_backend.Reports.Menu.{get_link, split, last}

-- The text has no slash, and the link is it, or some text, a slash, and it.
abbrev pub IsLastPart : Text → Text → Type 0
IsLastPart part link =
    (contains_code b'/' part ≡ false)
    × ((link ≡ part) ⊎ ((before : Text) × (link ≡ before ++ b'/' ∷ part)))

-- The parts of a link: one, which is the link, or more, of which the last ends it.
abbrev Parts : Text → Text → List Text → Type 0
Parts link t ts =
    ((ts ≡ []) × (link ≡ t) × (contains_code b'/' t ≡ false))
    ⊎ ((u : Text) × (us : List Text) × (ts ≡ u ∷ us)
        × (contains_code b'/' (last u us) ≡ false)
        × ((before : Text) × (link ≡ before ++ b'/' ∷ last u us)))

split-Parts :
    (link : Text) → (t : Text) × (ts : List Text) × (split link ≡ t ∷ ts) × Parts link t ts
split-Parts [] = ([], [], refl, inl (refl, refl, refl))
split-Parts (c ∷ cs) =
    let (t, ts, e, parts) = split-Parts cs in
    elim (Bool-cases (c == b'/')) [
      | inl slash ↦
          let same : c ≡ b'/' = ground arith in
          elim parts [
            | inl (none_more, whole, clean) ↦ (
              [],
              t ∷ ts,
              ground arith,
              inr (t, ts, refl, rw none_more clean, ([], rw none_more (ground arith))),
            )
            | inr (u, us, more, clean, (before, joined)) ↦ (
              [],
              t ∷ ts,
              ground arith,
              inr (t, ts, refl, rw more clean, (c ∷ before, rw more (ground arith))),
            )
          ]
      | inr other ↦ elim parts [
        | inl (none_more, whole, clean) ↦
            (c ∷ t, ts, ground arith, inl (none_more, ground arith, ground arith))
        | inr (u, us, more, clean, (before, joined)) ↦
            (c ∷ t, ts, ground arith, inr (u, us, more, clean, (c ∷ before, ground arith)))
      ]
    ]

-- `getLink` has no slash, and is the whole path, or what follows a slash of the path to its end.
pub get_link-IsLastPart : (link : Text) → IsLastPart (get_link link) link
unfolding get_link
get_link-IsLastPart link =
    let (t, ts, e, parts) = split-Parts link in
    elim parts [
      | inl (none_more, whole, clean) ↦
          let same : get_link link ≡ link = ground arith in rw same (ground arith, inl refl)
      | inr (u, us, more, clean, (before, joined)) ↦
          let same : get_link link ≡ last u us = ground arith in
          rw same (clean, inr (before, joined))
    ]
