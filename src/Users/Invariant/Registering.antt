-- ===== src/Users/Invariant/Registering.antt =====
-- The invariant of the users' table, for the operations of UserService that validate a user.
use graffi_tab_backend.Prelude.{
  ℕ, ◌≡◌, refl, inl, inr, Bool, true, false, some, [], ◌∷◌, ◌++◌, ◌+◌, ◌==◌, ◌&&◌, not, select,
  update, Table, update-IsKeyed, append-IsKeyed, Below-update, Below-append, arith, Option-cases,
}
use graffi_tab_backend.Prelude.Text.{Text, text_eq}
use graffi_tab_backend.Model.Account.{User, ExternalProviderType}
use graffi_tab_backend.Backend.{Backend, Result-cases}
use graffi_tab_backend.Backend.Lookup.{Request, current_id}
use graffi_tab_backend.Users.Validation.{UserForm, check_user, validate_create_user}
use graffi_tab_backend.Users.Validation.Accepted.{check_user_new, check_user_edit, check_user-state}
use graffi_tab_backend.Users.Registration.{
  PasswordEncoder, Drawn, create_user, create_external_user, edit_user, registered,
  registered_external, edited,
}
use graffi_tab_backend.Users.Following.Graph.{update-IsGraph, append-IsGraph}
use graffi_tab_backend.Users.Invariant.{IsValid}
use graffi_tab_backend.Users.Invariant.Distinct.{
  IsAbsent, append-IsDistinct, update-IsDistinct, update_column-IsDistinct,
}
use graffi_tab_backend.Users.Invariant.Steps.{Keeps}

-- A new row that follows nobody, with a name and an address that no row has.
append-IsValid :
    (u : User) (t : Table User)
    → u.following ≡ []
    → IsAbsent (λ v. v.username) u.username t.rows
    → IsAbsent (λ v. v.email) u.email t.rows
    → IsValid t
    → IsValid (record { rows = t.rows ++ (t.next, u) ∷ []; next = t.next + 1 })
append-IsValid u t none' names mails v = record {
  keyed = append-IsKeyed t.next u t.rows v.below v.keyed;
  below = Below-append t.next u t.rows v.below;
  usernames = append-IsDistinct (λ w. w.username) t.next u t.rows names v.usernames;
  emails = append-IsDistinct (λ w. w.email) t.next u t.rows mails v.emails;
  graph = append-IsGraph t.next u t.rows none' v.graph;
}

pub create_user-IsValid :
    (encoder : PasswordEncoder) (immediate : Bool) (f : UserForm) (d : Drawn) (now : ℕ)
    (s : Backend)
    → Keeps s (create_user encoder immediate f d now s).1
unfolding create_user validate_create_user
create_user-IsValid encoder immediate f d now s v = elim (Option-cases f.id) [
  | inr (id, given) ↦ ground (arith, check_user-state f false s)
  | inl new ↦ elim (Result-cases (check_user f false s)) [
    | inr (e, t, q) ↦ ground arith
    | inl (tt', t, q) ↦
        let (email, address, _, _, names, mails) = check_user_new f s t new q in
        ground (
          arith,
          check_user-state f false s,
          append-IsValid (registered encoder immediate f d email now) s.db.users refl names mails v,
        )
  ]
]

pub create_external_user-IsValid :
    (encoder : PasswordEncoder) (is_valid_token : Text → ExternalProviderType → Bool) (f : UserForm)
    (d : Drawn) (external_id access_token : Text) (type : ExternalProviderType) (now : ℕ)
    (s : Backend)
    → Keeps s
        (create_external_user encoder is_valid_token f d external_id access_token type now s).1
unfolding create_external_user validate_create_user
create_external_user-IsValid encoder is_valid_token f d external_id access_token type now s v =
    let form = record f { password = some (encoder.encode d.salt d.token) } in
    elim (Option-cases f.id) [
      | inr (id, given) ↦ ground (arith, check_user-state form false s)
      | inl new ↦ elim (Result-cases (check_user form false s)) [
        | inr (e, t, q) ↦ ground arith
        | inl (tt', t, q) ↦
            let (email, address, _, _, names, mails) = check_user_new form s t new q in
            let row =
              registered_external encoder is_valid_token form d email type external_id access_token
                now in
            ground (
              arith,
              check_user-state form false s,
              append-IsValid row s.db.users refl names mails v,
            )
      ]
    ]

-- An edit that sets the address of one account to one that no other has.
edited-IsValid :
    (f : UserForm) (email : Text) (now k : ℕ) (t : Table User)
    → select (λ j u. text_eq u.email email && not (j == k)) t.rows ≡ []
    → IsValid t
    → IsValid (record t { rows = update k (edited f email now) t.rows })
edited-IsValid f email now k t free v = record {
  keyed = update-IsKeyed k (edited f email now) t.rows v.keyed;
  below = Below-update t.next k (edited f email now) t.rows v.below;
  usernames =
      update-IsDistinct (λ u. u.username) k (edited f email now) t.rows (λ _. refl) v.usernames;
  emails =
      update_column-IsDistinct (λ u. u.email) email k (edited f email now) t.rows (λ _. refl)
        v.keyed free v.emails;
  graph =
      update-IsGraph k (edited f email now) t.rows (λ u found nodup self. (nodup, self)) v.graph;
}

pub edit_user-IsValid : (r : Request) (f : UserForm) (s : Backend) → Keeps s (edit_user r f s).1
unfolding edit_user validate_create_user
edit_user-IsValid r f s v = elim (Option-cases (current_id r)) [
  | inl e ↦ ground arith
  | inr (id, current) ↦
      let form = record f { id = some id } in
      elim (Result-cases (check_user form true s)) [
        | inr (e, t, q) ↦ ground arith
        | inl (tt', t, q) ↦
            let (email, address, _, free) = check_user_edit form id s t refl q in
            ground (
              arith,
              check_user-state form true s,
              edited-IsValid form email r.now id s.db.users free v,
            )
      ]
]
