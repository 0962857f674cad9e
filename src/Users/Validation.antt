-- ===== src/Users/Validation.antt =====
-- service/user/UserValidationService.java.
pub mod Accepted
use graffi_tab_backend.Prelude.{
  ℕ, Bool, true, not, ◌&&◌, ◌||◌, Option, none, some, [], ◌==◌, leb, ltb, length, is_nil, is_some,
  if◌then◌else◌,
}
use graffi_tab_backend.Prelude.Text.{Text, text_eq, is_empty, is_empty?, to_lower_case}
use graffi_tab_backend.Errors.{
  empty_mandatory_field, invalid_username, invalid_email, username_already_in_use,
  email_already_in_use, rest, null_pointer, Result, ok, err,
}
use graffi_tab_backend.Regex.{Regex, class, seq, star, plus, optional, matches}
use graffi_tab_backend.Model.Account.{User}
use graffi_tab_backend.Backend.{Action, pure, throw, throw_if, unless, of_result, ◌>>=◌, ◌>>◌}
use graffi_tab_backend.Backend.Transactions.{in_transaction}
use graffi_tab_backend.Backend.Lookup.{list_users, unique_user}

-- The fields of the user that a request hands in; its id is set for an edit only.
pub record UserForm : Type 0 where
  pub id : Option ℕ
  pub username : Option Text
  pub first_name : Option Text
  pub last_name : Option Text
  pub password : Option Text
  pub email : Option Text
  pub website : Option Text
  pub about : Option Text

abbrev pub is_upper : ℕ → Bool
is_upper c = leb b'A' c && leb c b'Z'

abbrev pub is_lower : ℕ → Bool
is_lower c = leb b'a' c && leb c b'z'

abbrev pub is_digit : ℕ → Bool
is_digit c = leb b'0' c && leb c b'9'

-- `[A-Za-z0-9-_\.]`
abbrev pub is_username_code : ℕ → Bool
is_username_code c = is_upper c || is_lower c || is_digit c || c == b'-' || c == b'_' || c == b'.'

-- `[A-Za-z0-9-_\.]+`
abbrev pub username_pattern : Regex
username_pattern = plus (class is_username_code)

-- ``[a-z0-9!#$%&'*+/=?^_`{|}~-]``
abbrev pub is_atom_code : ℕ → Bool
is_atom_code c =
    is_lower c
    || is_digit c
    || c == 33
    || c == 35
    || c == 36
    || c == 37
    || c == 38
    || c == 39
    || c == 42
    || c == 43
    || c == 47
    || c == 61
    || c == 63
    || c == 94
    || c == 95
    || c == 96
    || c == 123
    || c == 124
    || c == 125
    || c == 126
    || c == 45

-- `[a-z0-9]` and `[a-z0-9-]`
abbrev pub is_label_code : ℕ → Bool
is_label_code c = is_lower c || is_digit c

abbrev pub is_inner_code : ℕ → Bool
is_inner_code c = is_label_code c || c == b'-'

abbrev pub one : ℕ → Regex
one c = class (λ d. d == c)

-- `[a-z0-9](?:[a-z0-9-]*[a-z0-9])?`
abbrev pub label : Regex
label =
    seq (class is_label_code) (optional (seq (star (class is_inner_code)) (class is_label_code)))

abbrev pub atom : Regex
atom = plus (class is_atom_code)

-- `atom(?:\.atom)*@(?:label\.)+label`
abbrev pub email_pattern : Regex
email_pattern =
    seq atom
      (seq (star (seq (one b'.') atom)) (seq (one b'@') (seq (plus (seq label (one b'.'))) label)))

-- `getEmail()` lowers the field, and throws on a user without one.
abbrev pub get_email : UserForm → Result Text
get_email f = elim f.email [ none ↦ err null_pointer | some e ↦ ok (to_lower_case e) ]

abbrev pub or_blank : Option Text → Text
or_blank none = []
or_blank (some t) = t

-- The first test, read from left to right: a user without an e-mail address throws.
abbrev mandatory_missing : UserForm → Bool → Result Bool
mandatory_missing f is_edit =
    if not is_edit && is_empty? f.username then ok true else elim (get_email f) [
      | err e ↦ err e
      | ok email ↦ ok (
          is_empty email
          || is_empty? f.first_name
          || is_empty? f.last_name
          || (not is_edit && is_empty? f.password))
    ]

abbrev pub username_invalid : Text → Bool
username_invalid name =
    not (matches username_pattern name) || ltb (length name) 3 || ltb 25 (length name)

-- `isUsernameTaken`
abbrev is_username_taken : Text → Option ℕ → Action Bool
is_username_taken name (some id) = do
  others ← list_users (λ j u. text_eq u.username name && not (j == id))
  pure (not (is_nil others))
is_username_taken name none = do
  found ← unique_user (λ j u. text_eq u.username name)
  pure (is_some found)

-- `isEmailTaken`
abbrev is_email_taken : Text → Option ℕ → Action Bool
is_email_taken email (some id) = do
  others ← list_users (λ j u. text_eq u.email email && not (j == id))
  pure (not (is_nil others))
is_email_taken email none = do
  found ← unique_user (λ j u. text_eq u.email email)
  pure (is_some found)

-- The tests in the code's order; the first that fails names the error.
unfoldable pub check_user : UserForm → Bool → Action (Unit {0})
check_user f is_edit = do
  missing ← of_result (mandatory_missing f is_edit)
  throw_if missing (rest empty_mandatory_field)
  throw_if (not is_edit && username_invalid (or_blank f.username)) (rest invalid_username)
  email ← of_result (get_email f)
  throw_if (not (matches email_pattern email)) (rest invalid_email)
  taken ← unless is_edit (is_username_taken (or_blank f.username) f.id)
  throw_if taken (rest username_already_in_use)
  used ← is_email_taken email f.id
  throw_if used (rest email_already_in_use)

-- `validateCreateUser`, and `validateEditInfo` with `isEdit` set.
unfoldable pub validate_create_user : UserForm → Bool → Action (Unit {0})
unfolding in_transaction
validate_create_user f is_edit = in_transaction (check_user f is_edit)
