-- ===== src/Sessions/Logout.antt =====
-- The sessions of a user and of the others, for the delete statement of `logoutEverywhere`.
use graffi_tab_backend.Prelude.{
  ℕ, ◌≡◌, refl, Bool, not, ◌&&◌, Option, none, some, List, [], ◌∷◌, ◌==◌, filter, arith,
}
use graffi_tab_backend.Prelude.Text.{Text, text_eq, eq_at?}
use graffi_tab_backend.Model.{UserSession}
use graffi_tab_backend.Sessions.{logged_out}

abbrev pub is_of : ℕ → UserSession → Bool
is_of user x = x.user == user

logged_out_user :
    (user : ℕ) (kept : Text) (xs : List UserSession)
    → filter (is_of user) (logged_out user (some kept) xs)
      ≡ filter (λ x. is_of user x && text_eq x.session_id kept) xs
logged_out_user user kept [] = refl
logged_out_user user kept (x ∷ xs) = ground (arith, logged_out_user user kept xs)

logged_out_all :
    (user : ℕ) (xs : List UserSession) → filter (is_of user) (logged_out user none xs) ≡ []
logged_out_all user [] = refl
logged_out_all user (x ∷ xs) = ground (arith, logged_out_all user xs)

logged_out_others :
    (user : ℕ) (kept : Option Text) (xs : List UserSession)
    → filter (λ x. not (is_of user x)) (logged_out user kept xs)
      ≡ filter (λ x. not (is_of user x)) xs
logged_out_others user none [] = refl
logged_out_others user none (x ∷ xs) = ground (arith, logged_out_others user none xs)
logged_out_others user (some kept) [] = refl
logged_out_others user (some kept) (x ∷ xs) = ground (arith, logged_out_others user (some kept) xs)

logged_out_own :
    (user : ℕ) (kept : Option Text) (xs : List UserSession)
    → filter (is_of user) (logged_out user kept xs)
      ≡ filter (λ x. is_of user x && eq_at? kept x.session_id) xs
logged_out_own user (some kept) xs = logged_out_user user kept xs
logged_out_own user none [] = refl
logged_out_own user none (x ∷ xs) = ground (arith, logged_out_own user none xs)

-- Of the sessions of the user, a logout everywhere leaves the one whose id is kept, or none
-- where none is; the sessions of the other users stay, and all in their order.
pub logged_out_lem :
    (user : ℕ) (kept : Option Text) (xs : List UserSession)
    → (filter (is_of user) (logged_out user kept xs)
        ≡ filter (λ x. is_of user x && eq_at? kept x.session_id) xs)
      × (filter (λ x. not (is_of user x)) (logged_out user kept xs)
          ≡ filter (λ x. not (is_of user x)) xs)
logged_out_lem user kept xs = (logged_out_own user kept xs, logged_out_others user kept xs)
