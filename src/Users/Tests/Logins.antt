-- ===== src/Users/Tests/Logins.antt =====
-- Logins to the test accounts.
use graffi_tab_backend.Prelude.{◌≡◌, refl, ◌↔◌, true, false, some, [], ◌∷◌, ◌≤◌, All}
use graffi_tab_backend.Prelude.Text.{Text, codes}
use graffi_tab_backend.Errors.{ok, maximum_login_attempts, user_not_in_expected_state}
use graffi_tab_backend.Users.Logins.Filters.{
  attempt_authentication, refused, max_attempts, login_user_not_active,
}
use graffi_tab_backend.Users.Logins.Lockout.{try_all, six_wrong_passwords_lock}
use graffi_tab_backend.Users.Validation.{username_invalid, is_username_code}
use graffi_tab_backend.Users.Validation.Accepted.{username_accepted_iff}
use graffi_tab_backend.Samples.{encoder, ann, start, users-IsKeyed}

abbrev wrong : Text
wrong = codes "guess"

six_wrong_passwords_lock_example :
    let (sixth, s') =
      attempt_authentication encoder false
        (some (codes "ann"))
        wrong
        (try_all encoder (codes "ann") 1 (wrong ∷ wrong ∷ wrong ∷ wrong ∷ wrong ∷ []) start) in
    (sixth ≡ ok (refused (max_attempts maximum_login_attempts)))
    × (attempt_authentication encoder false (some (codes "ann")) (codes "secret") s'
        ≡ (ok (refused (login_user_not_active user_not_in_expected_state)), s'))
six_wrong_passwords_lock_example =
    six_wrong_passwords_lock encoder (codes "ann") 1 (wrong ∷ wrong ∷ wrong ∷ wrong ∷ wrong ∷ [])
      wrong (codes "secret") start {u = ann} users-IsKeyed refl refl refl
      (refl, (refl, (refl, (refl, (refl, tt))))) refl refl

username_accepted_iff_example :
    (username_invalid (codes "ann") ≡ false)
    ↔ ((3 ≤ 3) × (3 ≤ 25) × All (λ c. is_username_code c ≡ true) (codes "ann"))
username_accepted_iff_example = username_accepted_iff (codes "ann")
