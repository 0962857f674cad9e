-- ===== src/Reports/Unpack.antt =====
-- js/unpack.js of a report: plots, each with a value of every series, become series.
pub mod Series
use graffi_tab_backend.Prelude.{ℕ, zero, suc, ◌*◌, Option, none, some, List, [], ◌∷◌, length, map}

-- What a plot shows of a series: null, undefined where the values are too few, or a number.
pub data Value : Type 0 where
  null undefined : Value
  number : ℕ → Value

-- `[timestamp, values]`, where the values may be null.
abbrev pub Plot : Type 0
Plot = ℕ × Option (List ℕ)

-- `findNbSeries`
unfoldable pub find_nb_series : List Plot → ℕ
find_nb_series [] = 0
find_nb_series ((t, some values) ∷ array) = length values
find_nb_series ((t, none) ∷ array) = find_nb_series array

abbrev at : ℕ → List ℕ → Value
at j [] = undefined
at zero (v ∷ vs) = number v
at (suc j) (v ∷ vs) = at j vs

-- `values === null ? null : values[j]`
abbrev pub value_of : ℕ → Option (List ℕ) → Value
value_of j none = null
value_of j (some values) = at j values

-- `[timestamp * 1000, ...]`
abbrev pub point : ℕ → Plot → ℕ × Value
point j (t, values) = (t * 1000, value_of j values)

-- The series from the `j`th on, as many as are left.
abbrev pub series_from : ℕ → ℕ → List Plot → List (List (ℕ × Value))
series_from j zero array = []
series_from j (suc n) array = map (point j) array ∷ series_from (suc j) n array

-- `unpack`
unfoldable pub unpack : List Plot → List (List (ℕ × Value))
unfolding find_nb_series
unpack array = series_from 0 (find_nb_series array) array
