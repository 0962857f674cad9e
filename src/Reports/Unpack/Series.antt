-- ===== src/Reports/Unpack/Series.antt =====
-- What the series have of the plots.
use graffi_tab_backend.Prelude.{
  ℕ, zero, suc, ◌*◌, ◌≡◌, refl, Option, none, some, List, [], ◌∷◌, length, map, All, drop, arith,
}
use graffi_tab_backend.Reports.Unpack.{
  Value, number, Plot, find_nb_series, at, point, series_from, unpack,
}

length-map : {A B : Type 0} (f : A → B) (xs : List A) → length (map f xs) ≡ length xs
length-map f [] = refl
length-map f (x ∷ xs) = ground (arith, length-map f xs)

length-series_from : (j n : ℕ) (array : List Plot) → length (series_from j n array) ≡ n
length-series_from j zero array = refl
length-series_from j (suc n) array = ground (arith, length-series_from (suc j) n array)

series_from-length :
    (j n : ℕ) (array : List Plot) → All (λ s. length s ≡ length array) (series_from j n array)
series_from-length j zero array = tt
series_from-length j (suc n) array =
    (length-map (point j) array, series_from-length (suc j) n array)

-- There are as many series as the first plot with values has, each as long as the array.
pub length-unpack :
    (array : List Plot)
    → (length (unpack array) ≡ find_nb_series array)
      × All (λ s. length s ≡ length array) (unpack array)
unfolding unpack
length-unpack array = (
  length-series_from 0 (find_nb_series array) array,
  series_from-length 0 (find_nb_series array) array,
)

-- The first points of the series.
abbrev pub first_points : List (List (ℕ × Value)) → List (ℕ × Value)
first_points [] = []
first_points ([] ∷ ss) = first_points ss
first_points ((p ∷ ps) ∷ ss) = p ∷ first_points ss

at-drop :
    (j : ℕ) (vs ws : List ℕ) {w : ℕ}
    → drop j vs ≡ w ∷ ws
    → (at j vs ≡ number w) × (drop (suc j) vs ≡ ws)
at-drop zero [] ws e = cc
at-drop zero (v ∷ vs) ws e = (ground arith, ground arith)
at-drop (suc j) [] ws e = cc
at-drop (suc j) (v ∷ vs) ws e = at-drop j vs ws e

series_from-first :
    (t j n : ℕ) (vs ws : List ℕ) (later : List Plot)
    → drop j vs ≡ ws
    → length ws ≡ n
    → first_points (series_from j n ((t, some vs) ∷ later)) ≡ map (λ v. (t * 1000, number v)) ws
series_from-first t j zero vs [] later e h = refl
series_from-first t j (suc n) vs [] later e h = absurd (ground arith)
series_from-first t j zero vs (w ∷ ws) later e h = absurd (ground arith)
series_from-first t j (suc n) vs (w ∷ ws) later e h =
    let (here, next) = at-drop j vs ws e in
    let rest = series_from-first t (suc j) n vs ws later next (ground arith) in
    ground (arith, here, rest)

-- Where the first plot has values, the first points of the series are these values in order, at
-- the time of the plot in milliseconds.
pub unpack_first :
    (t : ℕ) (values : List ℕ) (later : List Plot)
    → first_points (unpack ((t, some values) ∷ later)) ≡ map (λ v. (t * 1000, number v)) values
unfolding unpack find_nb_series
unpack_first t values later = series_from-first t 0 (length values) values values later refl refl

abbrev pub get_elem? : {A : Type 0} → List A → ℕ → Option A
get_elem? [] i = none
get_elem? (x ∷ xs) zero = some x
get_elem? (x ∷ xs) (suc i) = get_elem? xs i

-- `unpackedArray[j][i]` for each series `j` in order.
abbrev pub points_at : ℕ → List (List (ℕ × Value)) → List (ℕ × Value)
points_at i [] = []
points_at i (s ∷ ss) = elim (get_elem? s i) [ none ↦ points_at i ss | some p ↦ p ∷ points_at i ss ]

get_elem?-map :
    (f : Plot → ℕ × Value) (array : List Plot) (i : ℕ) {x : Plot}
    → get_elem? array i ≡ some x
    → get_elem? (map f array) i ≡ some (f x)
get_elem?-map f [] i e = cc
get_elem?-map f (y ∷ array) zero e = ground arith
get_elem?-map f (y ∷ array) (suc i) {x} e = get_elem?-map f array i {x = x} e

points_at-series_from :
    (t i j n : ℕ) (vs ws : List ℕ) (array : List Plot)
    → get_elem? array i ≡ some (t, some vs)
    → drop j vs ≡ ws
    → length ws ≡ n
    → points_at i (series_from j n array) ≡ map (λ v. (t * 1000, number v)) ws
points_at-series_from t i j zero vs [] array p e h = refl
points_at-series_from t i j (suc n) vs [] array p e h = absurd (ground arith)
points_at-series_from t i j zero vs (w ∷ ws) array p e h = absurd (ground arith)
points_at-series_from t i j (suc n) vs (w ∷ ws) array p e h =
    let (here, next) = at-drop j vs ws e in
    let rest = points_at-series_from t i (suc j) n vs ws array p next (ground arith) in
    let entry = get_elem?-map (point j) array i p in ground (arith, here, rest)

-- Where a plot has as many values as there are series, the points of the series at its place are
-- these values in order, at the time of the plot in milliseconds.
pub points_at-unpack :
    (t i : ℕ) (values : List ℕ) (array : List Plot)
    → get_elem? array i ≡ some (t, some values)
    → length values ≡ find_nb_series array
    → points_at i (unpack array) ≡ map (λ v. (t * 1000, number v)) values
unfolding unpack
points_at-unpack t i values array p h =
    points_at-series_from t i 0 (find_nb_series array) values values array p refl h
