-- ===== src/Paging/Pages.antt =====
-- The pages of PagingService, one after the other.
use graffi_tab_backend.Prelude.{
  ℕ, zero, suc, ◌+◌, ◌*◌, ◌^◌, ◌≤◌, ◌<◌, ◌≡◌, refl, some, List, [], ◌∷◌, ◌++◌, take, drop, arith,
}
use graffi_tab_backend.Paging.{get_items}

module _ {A : Type 0} (query_list : ℕ → ℕ → List A → List A) where
  -- What Hibernate documents of `setFirstResult` and `setMaxResults`; most results of 0 or fewer
  -- stand for no limit, and are left out.
  abbrev pub IsPaged : Type 0
  IsPaged =
      (o l : ℕ) (rows : List A)
      → o < 2 ^ 31
      → 0 < l
      → l < 2 ^ 31
      → query_list o l rows ≡ take l (drop o rows)

  -- The items of the first pages, `limit` to a page.
  pub read_pages : ℕ → ℕ → List A → List A
  read_pages zero limit rows = []
  read_pages (suc n) limit rows =
      read_pages n limit rows ++ (get_items query_list rows (some (n * limit)) (some limit)).items

  get_items-eq-take :
      (rows : List A) (o l : ℕ)
      → IsPaged
      → o < 2 ^ 31
      → 0 < l
      → l ≤ 20
      → (get_items query_list rows (some o) (some l)).items ≡ take l (drop o rows)
  unfolding get_items
  get_items-eq-take rows o l h a p b = ground (arith, h o l rows)

take-nil : {A : Type 0} (n : ℕ) → take {A = A} n [] ≡ []
take-nil zero = refl
take-nil (suc n) = refl

take-append-drop :
    {A : Type 0} (o l : ℕ) (xs : List A) → take o xs ++ take l (drop o xs) ≡ take (o + l) xs
take-append-drop zero l xs = ground arith
take-append-drop {A} (suc o) l [] = ground (arith, take-nil {A = A} l, take-nil {A = A} (suc o + l))
take-append-drop {A} (suc o) l (x ∷ xs) =
    let same : suc o + l ≡ suc (o + l) = omega arith in
    rw same (ground (arith, take-append-drop o l xs))

-- Where the database pages as Hibernate documents it, pages of a size from 1 to 20, read one
-- after the other from the first, are together the first items of the result, in order, as long
-- as offsets fit an integer.
pub read_pages-eq-take :
    {A : Type 0} (query_list : ℕ → ℕ → List A → List A) (n limit : ℕ) (rows : List A)
    → IsPaged query_list
    → 0 < limit
    → limit ≤ 20
    → n * limit < 2 ^ 31
    → read_pages query_list n limit rows ≡ take (n * limit) rows
unfolding read_pages
read_pages-eq-take q zero limit rows h p a b =
    let same : 0 * limit ≡ 0 = omega arith in rw same refl
read_pages-eq-take q (suc n) limit rows h p a b =
    let before = read_pages-eq-take q n limit rows h p a (omega arith) in
    let page = get_items-eq-take q rows (n * limit) limit h (omega arith) p a in
    let both = take-append-drop (n * limit) limit rows in
    let same : n * limit + limit ≡ suc n * limit = omega arith in rw (before, page, both, same) refl
