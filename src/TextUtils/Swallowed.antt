-- ===== src/TextUtils/Swallowed.antt =====
-- A mark that stands in the run after another mark.
use graffi_tab_backend.Prelude.{
  ℕ, suc, ◌≡◌, ◌≢◌, refl, sym, inl, false, true, List, [], ◌∷◌, ◌++◌, length, All, All-append,
  arith,
}
use mathlib.Core.List.{append_assoc}
use graffi_tab_backend.Prelude.Text.{Text}
use graffi_tab_backend.TextUtils.{is_word, groups}
use graffi_tab_backend.TextUtils.Finds.{
  Finds, ended, passed, found, find_all-Finds, Finds-unique, Ends,
}

-- No mark in a text of word characters.
passes : (w : Text) → All (λ c. is_word c ≡ true) w → Finds b'#' w []
passes [] h = ended
passes (c ∷ w) (p, h) = passed c w [] (inl (ground arith)) (passes w h)

groups-Finds : (mark : ℕ) (t : Text) (gs : List Text) → Finds mark t gs → groups mark t ≡ gs
unfolding groups
groups-Finds mark t gs f =
    let (hs, e, f') = find_all-Finds mark (suc (length t)) t (omega arith) in
    rw (e, groups) (Finds-unique mark t hs gs f' f)

stops : (w : Text) → All (λ c. is_word c ≡ true) w → Ends false w
stops [] h = tt
stops (c ∷ w) (p, h) = ground arith

concat_not_nil : (c : ℕ) (g : Text) → g ++ c ∷ [] ≢ []
concat_not_nil c [] = cc
concat_not_nil c (x ∷ g) = cc

-- Where a hash sign is followed by code units that are no word characters, if any, and then by
-- another hash sign and a word, the word is no hashtag: the only one is what stands between, with
-- the second sign.
pub hashtag_swallowed :
    (g w : Text)
    → All (λ c. is_word c ≡ false) g
    → All (λ c. is_word c ≡ true) w
    → groups b'#' (b'#' ∷ g ++ b'#' ∷ w) ≡ (g ++ b'#' ∷ []) ∷ []
hashtag_swallowed g w h a =
    let run : Text = g ++ b'#' ∷ [] in
    groups-Finds b'#' (b'#' ∷ g ++ b'#' ∷ w) (run ∷ []) (
      found b'#' false (g ++ b'#' ∷ w) run w [] refl (sym (append_assoc g (b'#' ∷ []) w))
        (concat_not_nil b'#' g) (All-append (λ x. is_word x ≡ false) g (b'#' ∷ []) h (refl, tt))
        (stops w a) (passes w a))
