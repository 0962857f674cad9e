-- ===== src/Users/Providers/Links.antt =====
-- What `linkExternalProvider` has checked.
use graffi_tab_backend.Prelude.{
  none, ℕ, ◌≡◌, refl, inl, inr, Bool, true, false, ◌&&◌, some, List, [], ◌∷◌, ◌++◌, filter, any,
  find, select, IsKeyed, arith, Option-cases, Bool-cases,
}
use native.Mathlib.Decide.{ℕ_discrete}
use graffi_tab_backend.Prelude.Text.{Text, text_eq}
use graffi_tab_backend.Errors.{ok}
use graffi_tab_backend.Model.Account.{User, ExternalProvider, ExternalProviderType, type_eq}
use graffi_tab_backend.Backend.{Backend}
use graffi_tab_backend.Backend.Lookup.{Request, current_id, unique_result, update_user}
use graffi_tab_backend.Backend.Lookup.Laws.{Query-cases, unique_result-eq-none, unique-found}
use graffi_tab_backend.Users.Registration.{has_provider}
use graffi_tab_backend.Users.Logins.Filters.{find_external_provider}
use graffi_tab_backend.Users.Providers.{link_external_provider}

none_of_type :
    (type : ExternalProviderType) (external_id : Text) (l : List ExternalProvider)
    → filter (λ e. type_eq e.external_provider_type type) l ≡ []
    → any (λ e. type_eq e.external_provider_type type && text_eq e.external_user_id external_id) l
      ≡ false
none_of_type type x [] h = refl
none_of_type type x (p ∷ l) h = elim (Bool-cases (type_eq p.external_provider_type type)) [
  | inl hit ↦ absurd (ground arith)
  | inr miss ↦ ground (arith, none_of_type type x l)
]

-- Where no two users share an id, a link that returns had found the current user without an
-- account of that provider, nobody with this account of the provider, and the token valid; it
-- adds the type, the external id and the token after the providers of the current user, and changes
-- nothing else in the database.
pub link_external_provider_sound :
    (is_valid_token : Text → ExternalProviderType → Bool) (r : Request)
    (type : ExternalProviderType) (external_id token : Text) (s s' : Backend) {id : ℕ}
    → IsKeyed s.db.users.rows
    → link_external_provider is_valid_token r type external_id token s ≡ (ok id, s')
    → (current_id r ≡ some id)
      × ((u : User) × (find id s.db.users.rows ≡ some u)
          × (find_external_provider type u ≡ ok none))
      × (select (λ _. has_provider type external_id) s.db.users.rows ≡ [])
      × (is_valid_token token type ≡ true)
      × (s'.db
          ≡ update_user id
              (λ u. record u {
                external_providers =
                    u.external_providers
                    ++ record {
                      external_provider_type = type;
                      external_user_id = external_id;
                      access_token = token;
                    }
                      ∷ [];
              })
              s.db)
unfolding link_external_provider
link_external_provider_sound valid r type x token s s' {id} k e =
    elim (Option-cases (current_id r)) [
      | inl c ↦ absurd (ground arith)
      | inr (a, c) ↦ elim (Option-cases (find a s.db.users.rows)) [
        | inl h ↦ absurd (ground arith)
        | inr (u, h) ↦ elim (Query-cases (find_external_provider type u)) [
          | inr q ↦ absurd (ground arith)
          | inl free ↦
              elim (Query-cases
                (unique_result (select (λ _. has_provider type x) s.db.users.rows))) [
                  | inl q ↦ (
                    ground arith,
                    (u, ground arith, free),
                    unique_result-eq-none (select (λ _. has_provider type x) s.db.users.rows) q,
                    ground arith,
                    ground arith,
                  )
                  | inr (inl ((j, w), q)) ↦ elim (ℕ_discrete a j) [
                    | no other ↦ absurd (ground arith)
                    | yes same ↦
                        let found =
                          unique-found (λ _. has_provider type x) s.db.users.rows {k = j} {v = w} k
                            q in
                        let clean = none_of_type type x u.external_providers (
                          unique_result-eq-none
                            (filter (λ p. type_eq p.external_provider_type type)
                              u.external_providers)
                            free) in
                        let one : u ≡ w = ground arith in
                        let no_link : has_provider type x w ≡ false = rw (← one) clean in
                        absurd (ground arith)
                  ]
                  | inr (inr (f, q)) ↦ absurd (ground arith)
                ]
        ]
      ]
    ]
