-- ===== src/Users/Registration/Race.antt =====
-- Two registrations whose validations and inserts interleave: `createUser` validates in one
-- transaction and inserts in another.
use graffi_tab_backend.Prelude.{
  ℕ, ◌+◌, ◌≡◌, Bool, false, none, some, List, [], ◌∷◌, ◌++◌, length, select, arith, Bool-cases, inl,
  inr,
}
use graffi_tab_backend.Prelude.Text.{Text, text_eq, text_eq_refl}
use graffi_tab_backend.Errors.{ok}
use graffi_tab_backend.Model.Account.{User}
use graffi_tab_backend.Backend.{Backend, Result-cases}
use graffi_tab_backend.Backend.Transactions.{in_transaction, in_transaction_with_result}
use graffi_tab_backend.Users.Validation.{UserForm, get_email, check_user, validate_create_user}
use graffi_tab_backend.Users.Validation.Accepted.{check_user_new}
use graffi_tab_backend.Users.Registration.{PasswordEncoder, Drawn, registered, register_validated}

-- The users of that name.
abbrev pub named : Text → List (ℕ × User) → List (ℕ × User)
named name = select (λ _ v. text_eq v.username name)

named_twice :
    (name : Text) (t : List (ℕ × User)) (n m : ℕ) (u v : User)
    → named name t ≡ []
    → u.username ≡ name
    → v.username ≡ name
    → length (named name ((t ++ (n, u) ∷ []) ++ (m, v) ∷ [])) ≡ 2
named_twice name [] n m u v h e e' = ground (arith, text_eq_refl name)
named_twice name ((j, w) ∷ t) n m u v h e e' = ground (arith, named_twice name t n m u v)

validated :
    (f : UserForm) (s : Backend) {name : Text}
    → f.id ≡ none
    → f.username ≡ some name
    → validate_create_user f false s ≡ (ok tt, s)
    → named name s.db.users.rows ≡ []
unfolding validate_create_user in_transaction
validated f s {name} new given valid = elim (Result-cases (check_user f false s)) [
  | inr (e, t, q) ↦ ground arith
  | inl (tt', t, q) ↦
      let (email, address, _, _, names, mails) = check_user_new f s t new q in ground (arith, names)
]

register_validated_rows :
    (encoder : PasswordEncoder) (immediate : Bool) (f : UserForm) (d : Drawn) (now : ℕ)
    (s : Backend) {email : Text}
    → f.id ≡ none
    → get_email f ≡ ok email
    → ((register_validated encoder immediate f d now s).0 ≡ ok s.db.users.next)
      × ((register_validated encoder immediate f d now s).1.db.users ≡ record {
        rows =
            s.db.users.rows ++ (s.db.users.next, registered encoder immediate f d email now) ∷ [];
        next = s.db.users.next + 1;
      })
unfolding in_transaction_with_result
register_validated_rows encoder immediate f d now s new address = elim (Bool-cases immediate) [
  | inl yes' ↦ (ground arith, ground arith)
  | inr no' ↦ (ground arith, ground arith)
]

-- Where two registrations of one form, with a username and an address and without an id, are both
-- validated before either inserts its row, nobody had the username, both return, and two users have
-- it then.
pub interleaved_registrations :
    (encoder : PasswordEncoder) (immediate : Bool) (f : UserForm) (d e : Drawn) (now later : ℕ)
    (s : Backend) {name email : Text}
    → f.id ≡ none
    → f.username ≡ some name
    → get_email f ≡ ok email
    → validate_create_user f false s ≡ (ok tt, s)
    → let (first, t) = register_validated encoder immediate f d now s in
      let (second, u) = register_validated encoder immediate f e later t in
      (named name s.db.users.rows ≡ [])
      × (first ≡ ok s.db.users.next)
      × (second ≡ ok t.db.users.next)
      × (length (named name u.db.users.rows) ≡ 2)
interleaved_registrations encoder immediate f d e now later s {name} {email} new given address
      valid =
    let t : Backend = (register_validated encoder immediate f d now s).1 in
    let (first, rows) = register_validated_rows encoder immediate f d now s new address in
    let (second, more) = register_validated_rows encoder immediate f e later t new address in
    let free = validated f s {name = name} new given valid in
    let twice =
      named_twice name s.db.users.rows s.db.users.next t.db.users.next
        (registered encoder immediate f d email now) (registered encoder immediate f e email later)
        free (ground arith) (ground arith) in
    (free, first, second, ground (arith, rows, more, twice))
