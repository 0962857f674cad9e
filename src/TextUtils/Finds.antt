-- ===== src/TextUtils/Finds.antt =====
-- What the loops over `Matcher.find` find.
use graffi_tab_backend.Prelude.{
  ℕ, zero, suc, ◌≤◌, ◌<◌, ◌≡◌, ◌≢◌, ◌⊎◌, refl, inl, inr, Bool, true, false, some, List, [], ◌∷◌,
  ◌++◌, ◌==◌, length, All, arith, Bool-cases,
}
use graffi_tab_backend.Prelude.Text.{Text, is_empty}
use graffi_tab_backend.TextUtils.{is_word, same, run_of, group, find_all}

-- The text does not go on with a code unit of the kind.
abbrev pub Ends : Bool → Text → Type 0
Ends b [] = Unit
Ends b (c ∷ t) = is_word c ≢ b

-- How `find` goes through a text: a mark with a longest run of one kind after it is a match,
-- and the search goes on behind the run; any other code unit is passed over.
pub data Finds (mark : ℕ) : Text → List Text → Type 0 where
  ended : Finds mark [] []
  passed :
      (c : ℕ) (t : Text) (gs : List Text)
      → ((c ≢ mark) ⊎ (t ≡ []))
      → Finds mark t gs
      → Finds mark (c ∷ t) gs
  found :
      (c : ℕ) (b : Bool) (t g rest : Text) (gs : List Text)
      → c ≡ mark
      → t ≡ g ++ rest
      → g ≢ []
      → All (λ c. is_word c ≡ b) g
      → Ends b rest
      → Finds mark rest gs
      → Finds mark (c ∷ t) (g ∷ gs)

same_iff : (b c : Bool) → same b c ≡ true → c ≡ b
same_iff true c h = h
same_iff false true h = cc
same_iff false false h = refl

same_not : (b c : Bool) → same b c ≡ false → c ≢ b
same_not true c h = cc
same_not false true h = cc
same_not false false h = cc

same_self : (b : Bool) → same b b ≡ true
same_self true = refl
same_self false = refl

run_of_lem :
    (b : Bool) (t : Text)
    → (t ≡ (run_of b t).0 ++ (run_of b t).1)
      × All (λ c. is_word c ≡ b) (run_of b t).0
      × Ends b (run_of b t).1
run_of_lem b [] = (refl, tt, tt)
run_of_lem b (c ∷ t) =
    let (e, a, n) = run_of_lem b t in
    elim (Bool-cases (same b (is_word c))) [
      | inl hit ↦ rw hit (ap_cons c t _ e, (same_iff b (is_word c) hit, a), n)
      | inr miss ↦ rw miss (refl, tt, same_not b (is_word c) miss)
    ]
  where
    ap_cons : (c : ℕ) (t u : Text) → t ≡ u → (c ∷ t) ≡ (c ∷ u)
    ap_cons c t u e = cc

length-run_of : (b : Bool) (t : Text) → length (run_of b t).1 ≤ length t
length-run_of b [] = omega arith
length-run_of b (c ∷ t) = ground (arith, length-run_of b t)

group_cons : (c : ℕ) (t : Text) → (group (c ∷ t)).0 ≢ []
group_cons c t = ground (arith, same_self (is_word c))

not_empty : (g : Text) → g ≢ [] → is_empty g ≡ false
not_empty [] h = absurd (h refl)
not_empty (c ∷ g) h = refl

-- With more fuel than the text has code units the loop ends, and has found the matches one after
-- the other: at each mark that something follows the longest run of one kind, and nothing else.
pub find_all-Finds :
    (mark fuel : ℕ) (t : Text)
    → length t < fuel
    → (gs : List Text) × (find_all mark fuel t ≡ some gs) × Finds mark t gs
unfolding find_all
find_all-Finds mark zero t h = absurd (omega arith)
find_all-Finds mark (suc fuel) [] h = ([], refl, ended)
find_all-Finds mark (suc fuel) (c ∷ []) h =
    let (gs, e, fs) = find_all-Finds mark fuel [] (omega arith) in
    (gs, ground arith, passed c [] gs (inr refl) fs)
find_all-Finds mark (suc fuel) (c ∷ d ∷ u) h =
    let g : Text = (group (d ∷ u)).0 in
    let rest : Text = (group (d ∷ u)).1 in
    let some_g : g ≢ [] = group_cons d u in
    let more : is_empty g ≡ false = not_empty g some_g in
    elim (Bool-cases (c == mark)) [
      | inl hit ↦
          let (gs, e, fs) =
            find_all-Finds mark fuel rest (omega (arith, length-run_of (is_word d) (d ∷ u))) in
          let (parts, a, n) = run_of_lem (is_word d) (d ∷ u) in
          (
            g ∷ gs,
            rw (hit, more, e) refl,
            found c (is_word d) (d ∷ u) g rest gs (ground arith) parts some_g a n fs,
          )
      | inr miss ↦
          let (gs, e, fs) = find_all-Finds mark fuel (d ∷ u) (omega arith) in
          (gs, rw (miss, e) refl, passed c (d ∷ u) gs (inl (ground arith)) fs)
    ]

run_unique :
    (b : Bool) (g rest h rest' : Text)
    → g ++ rest ≡ h ++ rest'
    → All (λ c. is_word c ≡ b) g
    → All (λ c. is_word c ≡ b) h
    → Ends b rest
    → Ends b rest'
    → (g ≡ h) × (rest ≡ rest')
run_unique b [] rest [] rest' e a a' n n' = (refl, e)
run_unique b [] [] (y ∷ h) rest' e a a' n n' = cc
run_unique b [] (x ∷ rest) (y ∷ h) rest' e a (p, a') n n' = absurd (n (cc))
run_unique b (x ∷ g) rest [] [] e a a' n n' = cc
run_unique b (x ∷ g) rest [] (y ∷ rest') e (p, a) a' n n' = absurd (n' (cc))
run_unique b (x ∷ g) rest (y ∷ h) rest' e (p, a) (p', a') n n' =
    let (same_g, same_rest) = run_unique b g rest h rest' (cc) a a' n n' in (cc, same_rest)

kind_unique :
    (b b' : Bool) (g rest h rest' : Text)
    → g ++ rest ≡ h ++ rest'
    → g ≢ []
    → h ≢ []
    → All (λ c. is_word c ≡ b) g
    → All (λ c. is_word c ≡ b') h
    → b ≡ b'
kind_unique b b' [] rest h rest' e some_g some_h a a' = absurd (some_g refl)
kind_unique b b' (x ∷ g) rest [] rest' e some_g some_h a a' = absurd (some_h refl)
kind_unique b b' (x ∷ g) rest (y ∷ h) rest' e some_g some_h (p, a) (p', a') = cc

not_both :
    (mark c : ℕ) (t g rest : Text) → ((c ≢ mark) ⊎ (t ≡ [])) → c ≡ mark → t ≡ g ++ rest → g ≢ [] → ⊥
not_both mark c t g rest (inl p) m e some_g = p m
not_both mark c t [] rest (inr p) m e some_g = some_g refl
not_both mark c t (x ∷ g) rest (inr p) m e some_g = cc

-- A text has no other matches.
pub Finds-unique :
    (mark : ℕ) (t : Text) (gs hs : List Text) → Finds mark t gs → Finds mark t hs → gs ≡ hs
Finds-unique mark [] _ _ ended ended = refl
Finds-unique mark (c ∷ t) gs hs (passed _ _ _ p f) (passed _ _ _ q f') =
    Finds-unique mark t gs hs f f'
Finds-unique mark (c ∷ t) gs hs (passed _ _ _ p f) (found _ b _ g rest gs' m e some_g a n f') =
    absurd (not_both mark c t g rest p m e some_g)
Finds-unique mark (c ∷ t) gs hs (found _ b _ g rest gs' m e some_g a n f') (passed _ _ _ p f) =
    absurd (not_both mark c t g rest p m e some_g)
Finds-unique mark (c ∷ t) gs hs (found _ b _ g rest gs' m e some_g a n f)
      (found _ b' _ h rest' hs' m' e' some_h a' n' f') =
    let parts : g ++ rest ≡ h ++ rest' = cc in
    let kinds = kind_unique b b' g rest h rest' parts some_g some_h a a' in
    let (same_g, same_rest) = run_unique b g rest h rest' parts a (rw kinds a') n (rw kinds n') in
    let later = Finds-unique mark rest gs' hs' f (rw same_rest f') in cc
