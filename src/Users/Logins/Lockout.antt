-- ===== src/Users/Logins/Lockout.antt =====
-- Logins with wrong passwords, through JsonLoginAuthenticationFilter and UserService.
use graffi_tab_backend.Prelude.{
  ℕ, ◌+◌, ◌≤◌, ◌<◌, ◌≡◌, refl, inl, inr, Bool, true, false, some, List, [], ◌∷◌, length, All,
  select, select_head, select-update, IsKeyed, update-IsKeyed, arith, Bool-cases,
}
use graffi_tab_backend.Prelude.Text.{Text, text_eq, contains_code, to_lower_case}
use graffi_tab_backend.Errors.{ok, maximum_login_attempts, user_not_in_expected_state}
use graffi_tab_backend.Model.Account.{User, active, reset_password}
use graffi_tab_backend.Backend.{Backend}
use graffi_tab_backend.Backend.Lookup.{update_user}
use graffi_tab_backend.Backend.Lookup.Laws.{unique_result-eq-some}
use graffi_tab_backend.Users.Registration.{PasswordEncoder}
use graffi_tab_backend.Users.Logins.{find_by_username_or_email, attempts, locked, failed_once}
use graffi_tab_backend.Users.Logins.Filters.{
  refused, bad_credentials, max_attempts, login_user_not_active, attempt_authentication,
}

-- The name finds this row.
abbrev pub Finds : Text → ℕ → User → Backend → Type 0
Finds name id u s = find_by_username_or_email name s ≡ (ok (some (id, u)), s)

-- A change of the row that leaves its names alone: the name still finds it.
Finds-update :
    (name : Text) (id : ℕ) (f : User → User) {u : User} (s : Backend)
    → (f u).username ≡ u.username
    → (f u).email ≡ u.email
    → IsKeyed s.db.users.rows
    → Finds name id u s
    → Finds name id (f u) (record s { db = update_user id f s.db })
Finds-update name id f {u} s names mails k h = elim (Bool-cases (contains_code b'@' name)) [
  | inl at ↦
      let p : ℕ → User → Bool = (λ _ v. text_eq v.email (to_lower_case name)) in
      let one = unique_result-eq-some (select p s.db.users.rows) {a = (id, u)} (ground arith) in
      let hit = select_head p s.db.users.rows {k = id} {v = u} {l = []} k one in
      ground (arith, select-update p f s.db.users.rows {k = id} {v = u} k (rw mails hit.1) one)
  | inr plain ↦
      let p : ℕ → User → Bool = (λ _ v. text_eq v.username name) in
      let one = unique_result-eq-some (select p s.db.users.rows) {a = (id, u)} (ground arith) in
      let hit = select_head p s.db.users.rows {k = id} {v = u} {l = []} k one in
      ground (arith, select-update p f s.db.users.rows {k = id} {v = u} k (rw names hit.1) one)
]

module _ (encoder : PasswordEncoder) (name : Text) (id : ℕ) where
  -- Each attempt in turn; `publishes` is false.
  pub try_all : List Text → Backend → Backend
  try_all [] s = s
  try_all (p ∷ ps) s = try_all ps (attempt_authentication encoder false (some name) p s).1

  -- A wrong password below the limit is refused and counted.
  wrong_password :
      (p : Text) (s : Backend) {u : User}
      → IsKeyed s.db.users.rows
      → Finds name id u s
      → u.account_status ≡ active
      → encoder.accepts p u.password ≡ false
      → attempts u.failed_logins < 5
      → attempt_authentication encoder false (some name) p s ≡ (
        ok (refused bad_credentials),
        record s { db = update_user id (failed_once (attempts u.failed_logins)) s.db },
      )
  unfolding attempt_authentication
  wrong_password p s {u} k h a w l = ground arith

  -- What a run of attempts leaves: the name still finds the account, and with these counts.
  pub record Counted (u : User) (n : ℕ) (s : Backend) : Type 0 where
    pub row : User
    pub found : Finds name id row s
    pub keyed : IsKeyed s.db.users.rows
    pub counted : attempts row.failed_logins ≡ attempts u.failed_logins + n
    pub status : row.account_status ≡ active
    pub password : row.password ≡ u.password

  -- Wrong passwords are counted one by one, up to five, and the account stays active.
  pub try_all-Counted :
      (ps : List Text) (s : Backend) {u : User}
      → IsKeyed s.db.users.rows
      → Finds name id u s
      → u.account_status ≡ active
      → All (λ p. encoder.accepts p u.password ≡ false) ps
      → attempts u.failed_logins + length ps ≤ 5
      → Counted u (length ps) (try_all ps s)
  unfolding try_all
  try_all-Counted [] s {u} k h a w l = record {
    row = u;
    found = h;
    keyed = k;
    counted = omega arith;
    status = a;
    password = refl;
  }
  try_all-Counted (p ∷ ps) s {u} k h a (w, ws) l =
      let f : User → User = failed_once (attempts u.failed_logins) in
      let s' : Backend = record s { db = update_user id f s.db } in
      let c =
        try_all-Counted ps s' {u = f u} (update-IsKeyed id f s.db.users.rows k)
          (Finds-update name id f s refl refl k h) a ws (omega arith) in
      rw (wrong_password p s k h a w (omega arith)) (record {
        row = c.row;
        found = c.found;
        keyed = c.keyed;
        counted = omega (arith, c.counted);
        status = c.status;
        password = c.password;
      })

  -- One wrong password more, and the account is locked.
  lock_password :
      (p : Text) (s : Backend) {u : User}
      → IsKeyed s.db.users.rows
      → Finds name id u s
      → u.account_status ≡ active
      → encoder.accepts p u.password ≡ false
      → 5 ≤ attempts u.failed_logins
      → attempt_authentication encoder false (some name) p s ≡ (
        ok (refused (max_attempts maximum_login_attempts)),
        record s { db = update_user id locked s.db },
      )
  unfolding attempt_authentication
  lock_password p s {u} k h a w l = ground arith

  -- An account that is not active refuses every password, and its counter stays.
  refuses_locked :
      (p : Text) (s : Backend) {u : User}
      → Finds name id u s
      → u.account_status ≡ reset_password
      → attempt_authentication encoder false (some name) p s
        ≡ (ok (refused (login_user_not_active user_not_in_expected_state)), s)
  unfolding attempt_authentication
  refuses_locked p s {u} h a = ground arith

  -- Where no two users share an id, and the name finds one active account with no failed logins,
  -- and the manager publishes no events: after five wrong passwords the sixth answers
  -- MAXIMUM_LOGIN_ATTEMPTS, and after it every password is refused, the right one too, and
  -- changes nothing.
  pub six_wrong_passwords_lock :
      (ps : List Text) (last any_password : Text) (s : Backend) {u : User}
      → IsKeyed s.db.users.rows
      → Finds name id u s
      → u.account_status ≡ active
      → attempts u.failed_logins ≡ 0
      → All (λ p. encoder.accepts p u.password ≡ false) ps
      → length ps ≡ 5
      → encoder.accepts last u.password ≡ false
      → let (sixth, s') = attempt_authentication encoder false (some name) last (try_all ps s) in
        (sixth ≡ ok (refused (max_attempts maximum_login_attempts)))
        × (attempt_authentication encoder false (some name) any_password s'
            ≡ (ok (refused (login_user_not_active user_not_in_expected_state)), s'))
  six_wrong_passwords_lock ps last any_password s {u} k h a z ws five w =
      let c = try_all-Counted ps s k h a ws (omega arith) in
      let t : Backend = try_all ps s in
      let e =
        lock_password last t {u = c.row} c.keyed c.found c.status (rw c.password w)
          (omega (arith, c.counted)) in
      rw e (
        refl,
        refuses_locked any_password _ (Finds-update name id locked t refl refl c.keyed c.found)
            refl,
      )

  -- Where no two users share an id, the name finds one active account with fewer than four
  -- failed logins, and the manager publishes its bad-credentials events, one wrong password is
  -- refused and counted twice.
  pub published_counts_twice :
      (p : Text) (s : Backend) {u : User}
      → IsKeyed s.db.users.rows
      → Finds name id u s
      → u.account_status ≡ active
      → encoder.accepts p u.password ≡ false
      → attempts u.failed_logins < 4
      → let (login, s') = attempt_authentication encoder true (some name) p s in
        (login ≡ ok (refused bad_credentials))
        × ((v : User) × Finds name id v s'
            × (attempts v.failed_logins ≡ attempts u.failed_logins + 2))
  unfolding attempt_authentication
  published_counts_twice p s {u} k h a w l =
      let f : User → User = failed_once (attempts u.failed_logins) in
      let s' : Backend = record s { db = update_user id f s.db } in
      let k' = update-IsKeyed id f s.db.users.rows k in
      let h' : Finds name id (f u) s' = Finds-update name id f s refl refl k h in
      let g : User → User = failed_once (attempts u.failed_logins + 1) in
      let h'' : Finds name id (g (f u)) (record s' { db = update_user id g s'.db }) =
        Finds-update name id g s' refl refl k' h' in
      (ground arith, (g (f u), ground arith, ground arith))
