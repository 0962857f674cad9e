-- ===== src/Users/Tests/Races.antt =====
-- Dan registers twice at once.
use graffi_tab_backend.Prelude.{◌≡◌, refl, false, none, some, [], length}
use graffi_tab_backend.Prelude.Text.{Text, codes, to_lower_case}
use graffi_tab_backend.Errors.{ok}
use graffi_tab_backend.Samples.{encoder, start}
use graffi_tab_backend.Users.Validation.{UserForm, check_user, validate_create_user}
use graffi_tab_backend.Users.Registration.{Drawn, register_validated}
use graffi_tab_backend.Users.Registration.Race.{named, interleaved_registrations}
use graffi_tab_backend.Regex.{matches}

abbrev dan : UserForm
dan = record {
  id = none;
  username = some (codes "dan");
  first_name = some (codes "Dan");
  last_name = some (codes "D");
  password = some (codes "secret");
  email = some (codes "d@e.f");
  website = none;
  about = none;
}

abbrev drawn : Text → Drawn
drawn guid = record { guid = guid; token = guid; salt = [] }

interleaved_registrations_example :
    let (first, t) = register_validated encoder false dan (drawn (codes "g")) 1 start in
    let (second, u) = register_validated encoder false dan (drawn (codes "h")) 2 t in
    (named (codes "dan") start.db.users.rows ≡ [])
    × (first ≡ ok start.db.users.next)
    × (second ≡ ok t.db.users.next)
    × (length (named (codes "dan") u.db.users.rows) ≡ 2)
unfolding check_user validate_create_user matches to_lower_case
interleaved_registrations_example =
    interleaved_registrations encoder false dan (drawn (codes "g")) (drawn (codes "h")) 1 2 start
      refl refl refl refl
