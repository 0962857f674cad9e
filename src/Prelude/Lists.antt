-- ===== src/Prelude/Lists.antt =====
-- Lists measured by native numbers, membership of numbers, and predicates by recursion.
use Prim.Native.Nat.{ℕ, zero, suc, ◌+◌, ◌≤◌, min}
use mathlib.Core.Path.{◌≡◌, refl}
use mathlib.Core.Bool.{Bool, true, false, ◌&&◌, ◌||◌}
use mathlib.Core.List.{List, [], ◌∷◌, ◌++◌}
use native.Mathlib.Omega.{arith}
use graffi_tab_backend.Prelude.Tests.{◌==◌, if◌then◌else◌}

module _ {ℓ} {A : Type ℓ} where
  abbrev pub length : List A → ℕ
  length [] = 0
  length (x ∷ xs) = suc (length xs)

  -- `list.isEmpty()`
  abbrev pub is_nil : List A → Bool
  is_nil [] = true
  is_nil (x ∷ xs) = false

  abbrev pub take : ℕ → List A → List A
  take zero xs = []
  take (suc n) [] = []
  take (suc n) (x ∷ xs) = x ∷ take n xs

  abbrev pub drop : ℕ → List A → List A
  drop zero xs = xs
  drop (suc n) [] = []
  drop (suc n) (x ∷ xs) = drop n xs

  abbrev pub filter : (A → Bool) → List A → List A
  filter p [] = []
  filter p (x ∷ xs) = if p x then x ∷ filter p xs else filter p xs

  abbrev pub any : (A → Bool) → List A → Bool
  any p [] = false
  any p (x ∷ xs) = p x || any p xs

  abbrev pub all : (A → Bool) → List A → Bool
  all p [] = true
  all p (x ∷ xs) = p x && all p xs

  pub length-append : (xs ys : List A) → length (xs ++ ys) ≡ length xs + length ys
  length-append [] ys = omega arith
  length-append (x ∷ xs) ys = omega (arith, length-append xs ys)

  pub length-take : (n : ℕ) (xs : List A) → length (take n xs) ≡ min n (length xs)
  length-take zero xs = omega arith
  length-take (suc n) [] = omega arith
  length-take (suc n) (x ∷ xs) = omega (arith, length-take n xs)

  pub length-filter-le : (p : A → Bool) (xs : List A) → length (filter p xs) ≤ length xs
  length-filter-le p [] = omega arith
  length-filter-le p (x ∷ xs) = ground (arith, length-filter-le p xs)

module _ {ℓ κ} {A : Type ℓ} (P : A → Type κ) where
  abbrev pub All : List A → Type κ
  All [] = Unit
  All (x ∷ xs) = P x × All xs

  pub All-append : (xs ys : List A) → All xs → All ys → All (xs ++ ys)
  All-append [] ys h k = k
  All-append (x ∷ xs) ys (p, h) k = (p, All-append xs ys h k)

-- `list.contains(id)`
abbrev pub contains : ℕ → List ℕ → Bool
contains a [] = false
contains a (x ∷ xs) = a == x || contains a xs

-- `list.remove(id)`: the first occurrence goes.
abbrev pub remove : ℕ → List ℕ → List ℕ
remove a [] = []
remove a (x ∷ xs) = if a == x then xs else x ∷ remove a xs

-- No number stands twice.
abbrev pub IsNodup : List ℕ → Type 0
IsNodup [] = Unit
IsNodup (x ∷ xs) = (contains x xs ≡ false) × IsNodup xs

pub contains-append :
    (a : ℕ) (xs ys : List ℕ) → contains a (xs ++ ys) ≡ (contains a xs || contains a ys)
contains-append a [] ys = refl
contains-append a (x ∷ xs) ys = ground (arith, contains-append a xs ys)

pub IsNodup-concat :
    (xs : List ℕ) (a : ℕ) → IsNodup xs → contains a xs ≡ false → IsNodup (xs ++ a ∷ [])
IsNodup-concat [] a h k = (refl, tt)
IsNodup-concat (x ∷ xs) a (p, h) k =
    ground (arith, IsNodup-concat xs a h, contains-append x xs (a ∷ []))

pub contains-remove_ne :
    (a b : ℕ) (xs : List ℕ) → (a == b) ≡ false → contains a (remove b xs) ≡ contains a xs
contains-remove_ne a b [] h = refl
contains-remove_ne a b (x ∷ xs) h = ground (arith, contains-remove_ne a b xs h)

pub contains-remove_self : (a : ℕ) (xs : List ℕ) → IsNodup xs → contains a (remove a xs) ≡ false
contains-remove_self a [] h = refl
contains-remove_self a (x ∷ xs) (p, h) = ground (arith, contains-remove_self a xs h)

pub contains-remove-le :
    (a b : ℕ) (xs : List ℕ) → contains a xs ≡ false → contains a (remove b xs) ≡ false
contains-remove-le a b [] h = refl
contains-remove-le a b (x ∷ xs) h = ground (arith, contains-remove-le a b xs)

pub IsNodup-remove : (a : ℕ) (xs : List ℕ) → IsNodup xs → IsNodup (remove a xs)
IsNodup-remove a [] h = tt
IsNodup-remove a (x ∷ xs) (p, h) =
    ground (arith, IsNodup-remove a xs h, contains-remove-le x a xs p)
