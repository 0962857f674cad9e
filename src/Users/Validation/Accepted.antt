-- ===== src/Users/Validation/Accepted.antt =====
-- What the validation has established when it lets a user through.
use graffi_tab_backend.Prelude.{
  ℕ, ◌≤◌, ◌≡◌, refl, ◌↔◌, inl, inr, Bool, true, false, not, ◌&&◌, none, some, List, [], ◌∷◌, ◌==◌,
  select, length, All, is_nil, arith, Option-cases, Bool-cases,
}
use graffi_tab_backend.Prelude.Text.{Text, text_eq, to_lower_case}
use graffi_tab_backend.Errors.{ok}
use graffi_tab_backend.Regex.{matches, class, star, plus}
use graffi_tab_backend.Regex.Laws.{matches_iff, Language, done, more}
use graffi_tab_backend.Model.Account.{User}
use graffi_tab_backend.Backend.{Backend}
use graffi_tab_backend.Backend.Lookup.{unique_result}
use graffi_tab_backend.Backend.Lookup.Laws.{Query-cases, unique_result-eq-none}
use graffi_tab_backend.Users.Validation.{
  UserForm, get_email, or_blank, check_user, username_pattern, is_username_code, username_invalid,
  email_pattern,
}

-- The one-class patterns: every code unit is in the class.
star_class : (p : ℕ → Bool) (t : Text) → Language (star (class p)) t → All (λ c. p c ≡ true) t
star_class p t (done e) = rw e tt
star_class p t (more u v (c, pc, eu) mv e) = rw (e, eu) (pc, star_class p v mv)

class_star : (p : ℕ → Bool) (t : Text) → All (λ c. p c ≡ true) t → Language (star (class p)) t
class_star p [] h = done refl
class_star p (c ∷ t) (pc, h) = more (c ∷ []) t (c, pc, refl) (class_star p t h) refl

plus_class_iff :
    (p : ℕ → Bool) (t : Text)
    → (matches (plus (class p)) t ≡ true) ↔ ((1 ≤ length t) × All (λ c. p c ≡ true) t)
plus_class_iff p t = (
  λ h.
      let (u, v, (c, pc, eu), mv, e) = (matches_iff (plus (class p)) t).0 h in
      rw (e, eu) (omega arith, (pc, star_class p v mv)),
  λ h. (matches_iff (plus (class p)) t).1 (first t h.0 h.1),
)
  where
    first : (t : Text) → 1 ≤ length t → All (λ c. p c ≡ true) t → Language (plus (class p)) t
    first [] h a = absurd (omega arith)
    first (c ∷ t) h (pc, a) = (c ∷ [], t, (c, pc, refl), class_star p t a, refl)

-- A user name passes exactly when it has 3 to 25 code units, each a letter, a digit, or one of
-- `-`, `_` and `.`.
pub username_accepted_iff :
    (name : Text)
    → (username_invalid name ≡ false)
      ↔ ((3 ≤ length name) × (length name ≤ 25) × All (λ c. is_username_code c ≡ true) name)
username_accepted_iff name =
    let (there, back) = plus_class_iff is_username_code name in
    elim (Bool-cases (matches username_pattern name)) [
      | inl m ↦ let (_, a) = there m in (λ h. (ground arith, ground arith, a), λ h. ground arith)
      | inr m ↦ (
        λ h. ground arith,
        λ h. let m' : matches username_pattern name ≡ true = back (omega arith, h.2) in cc,
      )
    ]

-- A registration that is let through: nobody has the name or the address yet.
pub check_user_new :
    (f : UserForm) (s s' : Backend)
    → f.id ≡ none
    → check_user f false s ≡ (ok tt, s')
    → (email : Text) × (get_email f ≡ ok email)
      × (matches email_pattern email ≡ true)
      × (username_invalid (or_blank f.username) ≡ false)
      × (select (λ _ u. text_eq u.username (or_blank f.username)) s.db.users.rows ≡ [])
      × (select (λ _ u. text_eq u.email email) s.db.users.rows ≡ [])
unfolding check_user
check_user_new f s s' new e = elim (Option-cases f.email) [
  | inl m ↦ ground arith
  | inr (address, m) ↦
      let name : ℕ → User → Bool = (λ _ u. text_eq u.username (or_blank f.username)) in
      let mail : ℕ → User → Bool = (λ _ u. text_eq u.email (to_lower_case address)) in
      elim (Query-cases (unique_result (select name s.db.users.rows))) [
        | inr q ↦ ground arith
        | inl q ↦ elim (Query-cases (unique_result (select mail s.db.users.rows))) [
          | inr q' ↦ ground arith
          | inl q' ↦ (
            to_lower_case address,
            ground arith,
            ground arith,
            ground arith,
            ground (arith, unique_result-eq-none (select name s.db.users.rows) q),
            ground (arith, unique_result-eq-none (select mail s.db.users.rows) q'),
          )
        ]
      ]
]

nil_of_is_nil {ℓ} : {A : Type ℓ} (l : List A) → is_nil l ≡ true → l ≡ []
nil_of_is_nil [] h = refl
nil_of_is_nil (a ∷ l) h = cc

-- An edit that is let through: no other account has the address.
pub check_user_edit :
    (f : UserForm) (id : ℕ) (s s' : Backend)
    → f.id ≡ some id
    → check_user f true s ≡ (ok tt, s')
    → (email : Text) × (get_email f ≡ ok email)
      × (matches email_pattern email ≡ true)
      × (select (λ j u. text_eq u.email email && not (j == id)) s.db.users.rows ≡ [])
unfolding check_user
check_user_edit f id s s' known e = elim (Option-cases f.email) [
  | inl m ↦ ground arith
  | inr (address, m) ↦
      let mail : ℕ → User → Bool =
        (λ j u. text_eq u.email (to_lower_case address) && not (j == id)) in
      elim (Bool-cases (is_nil (select mail s.db.users.rows))) [
        | inr q ↦ ground arith
        | inl q ↦ (
          to_lower_case address,
          ground arith,
          ground arith,
          ground (arith, nil_of_is_nil (select mail s.db.users.rows) q),
        )
      ]
]

-- The validation only reads.
pub check_user-state :
    (f : UserForm) (is_edit : Bool) (s : Backend) → (check_user f is_edit s).1 ≡ s
unfolding check_user
check_user-state f is_edit s = ground arith
