-- ===== src/Users/Invariant/Steps.antt =====
-- The invariant of the users' table, for the operations of UserService that validate nothing.
use graffi_tab_backend.Prelude.{
  ℕ, ◌≡◌, refl, inl, inr, none, some, find, update, Table, update-IsKeyed, Below-update, arith,
  Option-cases,
}
use graffi_tab_backend.Prelude.Text.{Text, text_eq}
use graffi_tab_backend.Model.Account.{
  User, active, reset_password, reset_password_token, reset_password_token_date, activation_token,
  activation_token_date, pending_activation,
}
use graffi_tab_backend.Backend.{Backend, Result-cases}
use graffi_tab_backend.Backend.Lookup.{Request, current_id, unique_user}
use graffi_tab_backend.Users.Registration.{PasswordEncoder}
use graffi_tab_backend.Users.Tokens.{
  activate_user, activation_check, reset_password_of, complete_password_reset, reset_check,
  change_password, recovered, asked_reset, changed, activation_token_expiration_ms,
  reset_password_token_expiration_ms,
}
use graffi_tab_backend.Users.Tokens.Lifecycle.{check_token-state}
use graffi_tab_backend.Users.Following.{Client, follow, unfollow, add_following, remove_following}
use graffi_tab_backend.Users.Following.Graph.{
  IsGraph, update-IsGraph, add_following-IsGraph, remove_following-IsGraph,
}
use graffi_tab_backend.Users.Logins.{
  update_login_attempts, reset_login_attempts, find_by_username_or_email, locked, failed_once,
  no_failures, attempts,
}
use graffi_tab_backend.Users.Invariant.{IsValid}
use graffi_tab_backend.Users.Invariant.Distinct.{update-IsDistinct}

-- A change of a row that leaves its names alone, and the graph simple.
update_graph-IsValid :
    (k : ℕ) (f : User → User) (t : Table User)
    → ((u : User) → (f u).username ≡ u.username)
    → ((u : User) → (f u).email ≡ u.email)
    → IsGraph (update k f t.rows)
    → IsValid t
    → IsValid (record t { rows = update k f t.rows })
update_graph-IsValid k f t names mails graph v = record {
  keyed = update-IsKeyed k f t.rows v.keyed;
  below = Below-update t.next k f t.rows v.below;
  usernames = update-IsDistinct (λ u. u.username) k f t.rows names v.usernames;
  emails = update-IsDistinct (λ u. u.email) k f t.rows mails v.emails;
  graph = graph;
}

-- A change of a row that leaves its names and its followees alone.
pub update-IsValid :
    (k : ℕ) (f : User → User) (t : Table User)
    → ((u : User) → (f u).username ≡ u.username)
    → ((u : User) → (f u).email ≡ u.email)
    → ((u : User) → (f u).following ≡ u.following)
    → IsValid t
    → IsValid (record t { rows = update k f t.rows })
update-IsValid k f t names mails graph v =
    update_graph-IsValid k f t names mails
      (update-IsGraph k f t.rows (λ u found nodup self. (rw (graph u) nodup, rw (graph u) self))
        v.graph)
      v

-- The same, as a step of a database.
abbrev pub Keeps : Backend → Backend → Type 0
Keeps s s' = IsValid s.db.users → IsValid s'.db.users

pub activate_user-IsValid :
    (token : Text) (now : ℕ) (s : Backend) → Keeps s (activate_user token now s).1
unfolding activate_user
activate_user-IsValid token now s v = elim (Result-cases (activation_check token now s)) [
  | inl ((j, u), t, q) ↦ ground (
    arith,
    check_token-state activation_token activation_token_date activation_token_expiration_ms
        pending_activation token now s,
    update-IsValid j (λ (x : User). record x { account_status = active }) s.db.users (λ _. refl)
        (λ _. refl) (λ _. refl) v,
  )
  | inr (e, t, q) ↦ ground arith
]

pub complete_password_reset-IsValid :
    (encoder : PasswordEncoder) (r : Request) (token new_password salt : Text) (s : Backend)
    → Keeps s (complete_password_reset encoder r token new_password salt s).1
unfolding complete_password_reset
complete_password_reset-IsValid encoder r token new_password salt s v =
    elim (Result-cases (reset_check token r.now s)) [
      | inl ((j, u), t, q) ↦ ground (
        arith,
        check_token-state reset_password_token reset_password_token_date
            reset_password_token_expiration_ms reset_password token r.now s,
        update-IsValid j (recovered encoder salt new_password) s.db.users (λ _. refl) (λ _. refl)
            (λ _. refl) v,
      )
      | inr (e, t, q) ↦ ground arith
    ]

pub reset_password_of-IsValid :
    (email token : Text) (now : ℕ) (s : Backend) → Keeps s (reset_password_of email token now s).1
unfolding reset_password_of
reset_password_of-IsValid email token now s v =
    elim (Result-cases (unique_user (λ _ u. text_eq u.email email) s)) [
      | inl (none, t, q) ↦ ground arith
      | inl (some (j, u), t, q) ↦ ground (
        arith,
        update-IsValid j (asked_reset token now) s.db.users (λ _. refl) (λ _. refl) (λ _. refl) v,
      )
      | inr (e, t, q) ↦ ground arith
    ]

pub change_password-IsValid :
    (encoder : PasswordEncoder) (r : Request) (current_password new_password salt : Text)
    (s : Backend)
    → Keeps s (change_password encoder r current_password new_password salt s).1
unfolding change_password
change_password-IsValid encoder r current_password new_password salt s v =
    elim (Option-cases (current_id r)) [
      | inl e ↦ ground arith
      | inr (j, e) ↦ ground (
        arith,
        update-IsValid j (changed encoder salt new_password r.now) s.db.users (λ _. refl)
            (λ _. refl) (λ _. refl) v,
      )
    ]

pub update_login_attempts-IsValid :
    (name : Text) (s : Backend) → Keeps s (update_login_attempts name s).1
unfolding update_login_attempts
update_login_attempts-IsValid name s v = elim (Result-cases (find_by_username_or_email name s)) [
  | inl (none, t, q) ↦ ground arith
  | inl (some (j, u), t, q) ↦ ground (
    arith,
    update-IsValid j locked s.db.users (λ _. refl) (λ _. refl) (λ _. refl) v,
    update-IsValid j (failed_once (attempts u.failed_logins)) s.db.users (λ _. refl) (λ _. refl)
        (λ _. refl) v,
  )
  | inr (e, t, q) ↦ ground arith
]

pub reset_login_attempts-IsValid :
    (name : Text) (s : Backend) → Keeps s (reset_login_attempts name s).1
unfolding reset_login_attempts
reset_login_attempts-IsValid name s v = elim (Result-cases (find_by_username_or_email name s)) [
  | inl (none, t, q) ↦ ground arith
  | inl (some (j, u), t, q) ↦
      ground (arith, update-IsValid j no_failures s.db.users (λ _. refl) (λ _. refl) (λ _. refl) v)
  | inr (e, t, q) ↦ ground arith
]

pub follow-IsValid : (r : Request) (c : Client) (b : ℕ) (s : Backend) → Keeps s (follow r c b s).1
unfolding follow
follow-IsValid r c b s v = elim (Option-cases (current_id r)) [
  | inl e ↦ ground arith
  | inr (a, e) ↦ elim (Option-cases (find a s.db.users.rows)) [
    | inl e' ↦ ground arith
    | inr (u, e') ↦ ground (
      arith,
      update_graph-IsValid a (add_following b) s.db.users (λ _. refl) (λ _. refl),
      add_following-IsGraph a b s.db.users.rows e',
    )
  ]
]

pub unfollow-IsValid : (r : Request) (b : ℕ) (s : Backend) → Keeps s (unfollow r b s).1
unfolding unfollow
unfollow-IsValid r b s v = elim (Option-cases (current_id r)) [
  | inl e ↦ ground arith
  | inr (a, e) ↦ ground (
    arith,
    update_graph-IsValid a (remove_following b) s.db.users (λ _. refl) (λ _. refl)
        (remove_following-IsGraph a b s.db.users.rows v.graph) v,
  )
]
