-- ===== src/Paging.antt =====
-- service/paging: PagingService and LocationsPagingService. An `Integer` is its 32-bit word; the
-- words from 2 ^ 31 on are the negative ones. `query.list()` is Hibernate's: a parameter, given
-- the first result, the most results, and the rows that the query selects.
pub mod Bounds
pub mod Pages
pub mod Grouping
mod Tests
use graffi_tab_backend.Prelude.{
  ℕ, ◌-◌, ◌^◌, ◌%◌, Bool, Option, none, some, List, ◌&&◌, ltb, length, if◌then◌else◌,
}

-- `Math.abs`: the least integer has no positive counterpart, and stays as it is.
abbrev pub abs : ℕ → ℕ
abs w = if ltb w (2 ^ 31) then w else (2 ^ 32 - w) % 2 ^ 32

-- `a > b` on integers, where `b` is not negative.
abbrev pub greater : ℕ → ℕ → Bool
greater a b = ltb a (2 ^ 31) && ltb b a

abbrev pub page_size_default_value : ℕ
page_size_default_value = 10

abbrev pub page_size_max_value : ℕ
page_size_max_value = 20

abbrev pub page_size_max_value_location : ℕ
page_size_max_value_location = 50

abbrev or_abs : Option ℕ → ℕ → ℕ
or_abs none default = default
or_abs (some w) default = abs w

-- The guard against malicious input.
abbrev capped : ℕ → ℕ → ℕ
capped limit max = if greater limit max then max else limit

pub record PagedList {ℓ} (A : Type ℓ) : Type ℓ where
  pub items : List A
  pub results_count : ℕ
  pub offset : ℕ
  pub limit : ℕ

module _ {ℓ} {A : Type ℓ} (query_list : ℕ → ℕ → List A → List A) where
  -- The part that the two services share.
  abbrev paged : ℕ → ℕ → List A → PagedList A
  paged offset limit rows =
      let page = query_list offset limit rows in
      record { items = page; results_count = length page; offset = offset; limit = limit }

  -- `PagingService.getItems`
  unfoldable pub get_items : List A → Option ℕ → Option ℕ → PagedList A
  get_items rows offset limit =
      paged (or_abs offset 0) (capped (or_abs limit page_size_default_value) page_size_max_value)
        rows

  -- `LocationsPagingService.getItems`
  unfoldable pub get_location_items : List A → Option ℕ → Option ℕ → PagedList A
  get_location_items rows offset limit =
      paged (or_abs offset 0)
        (capped (or_abs limit page_size_max_value_location) page_size_max_value_location) rows
