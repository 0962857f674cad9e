-- ===== src/Paging/Bounds.antt =====
-- What a request can make of the offset and the limit of a query.
use graffi_tab_backend.Prelude.{
  ℕ, ◌^◌, ◌≤◌, ◌<◌, ◌≡◌, ◌≢◌, refl, Option, none, some, List, length, arith,
}
use graffi_tab_backend.Paging.{PagedList, abs, get_items, get_location_items}

-- A word of 32 bits, or null.
abbrev pub IsWord : Option ℕ → Type 0
IsWord none = Unit
IsWord (some w) = w < 2 ^ 32

-- `Integer.MIN_VALUE`
abbrev pub min_value : ℕ
min_value = 2 ^ 31

abs_bound : (w : ℕ) → w < 2 ^ 32 → w ≢ min_value → abs w < 2 ^ 31
abs_bound w h k = ground arith

-- A page whose items are what the query gives for an offset and a limit within the bounds, and
-- whose fields say that offset, that limit and the number of these items.
abbrev pub IsBounded {ℓ} : {A : Type ℓ} → (ℕ → ℕ → List A → List A) → List A → PagedList A → Type ℓ
IsBounded query_list rows page =
    (o : ℕ) × (l : ℕ) × (o < 2 ^ 31)
    × (l ≤ 20)
    × (page ≡ record {
      items = query_list o l rows;
      results_count = length (query_list o l rows);
      offset = o;
      limit = l;
    })

-- For an offset and a limit that are null or 32-bit integers other than `Integer.MIN_VALUE`, the
-- page has what the query gives for an offset that is not negative and a limit between 0 and 20,
-- and says that offset, that limit and the number of its items.
pub get_items_bounds :
    {A : Type 0} (query_list : ℕ → ℕ → List A → List A) (rows : List A) (offset limit : Option ℕ)
    → IsWord offset
    → IsWord limit
    → offset ≢ some min_value
    → limit ≢ some min_value
    → IsBounded query_list rows (get_items query_list rows offset limit)
unfolding get_items
get_items_bounds q rows none none wo wl mo ml = (_, _, ground arith, ground arith, refl)
get_items_bounds q rows none (some l) wo wl mo ml =
    (_, _, ground arith, ground (arith, abs_bound l wl), refl)
get_items_bounds q rows (some o) none wo wl mo ml =
    (_, _, ground (arith, abs_bound o wo), ground arith, refl)
get_items_bounds q rows (some o) (some l) wo wl mo ml =
    (_, _, ground (arith, abs_bound o wo), ground (arith, abs_bound l wl), refl)

-- Where a request asks for a limit of `Integer.MIN_VALUE`, the guard lets it pass, in both
-- services: the query is given that limit, which is negative.
pub min_value_passes :
    {A : Type 0} (query_list : ℕ → ℕ → List A → List A) (rows : List A) (offset : Option ℕ)
    → ((get_items query_list rows offset (some min_value)).limit ≡ min_value)
      × ((get_location_items query_list rows offset (some min_value)).limit ≡ min_value)
unfolding get_items get_location_items
min_value_passes q rows offset = (refl, refl)
