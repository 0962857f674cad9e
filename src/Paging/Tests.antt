-- ===== src/Paging/Tests.antt =====
-- Pages and groups of small lists.
use graffi_tab_backend.Prelude.{ℕ, ◌*◌, ◌≡◌, refl, some, List, [], ◌∷◌, take, drop, arith}
use graffi_tab_backend.Paging.{get_items}
use graffi_tab_backend.Paging.Bounds.{IsBounded, get_items_bounds}
use graffi_tab_backend.Paging.Pages.{read_pages, read_pages-eq-take}

abbrev list_page : ℕ → ℕ → List ℕ → List ℕ
list_page o l rows = take l (drop o rows)

abbrev five : List ℕ
five = 1 ∷ 2 ∷ 3 ∷ 4 ∷ 5 ∷ []

get_items_bounds_example :
    IsBounded list_page five (get_items list_page five (some 1) (some 4294967293))
get_items_bounds_example =
    get_items_bounds list_page five (some 1) (some 4294967293) (ground arith) (ground arith)
      (ground arith) (ground arith)

read_pages-eq-take_example : read_pages list_page 2 2 five ≡ take (2 * 2) five
read_pages-eq-take_example =
    read_pages-eq-take list_page 2 2 five (λ o l rows a p b. refl) (ground arith) (ground arith)
      (ground arith)
