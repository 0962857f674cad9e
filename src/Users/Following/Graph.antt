-- ===== src/Users/Following/Graph.antt =====
-- `follow` and `unfollow` as updates of a graph: who follows whom.
use graffi_tab_backend.Prelude.{
  ℕ, ◌≡◌, ◌≢◌, ◌↔◌, inl, inr, Bool, true, false, not, ◌&&◌, ◌||◌, none, some, List, [], ◌∷◌, ◌++◌,
  ◌==◌, contains, find, update, find-update, contains-append, contains-remove_ne,
  contains-remove_self, IsNodup, IsNodup-concat, IsNodup-remove, contains-remove-le, arith,
  Option-cases,
}
use graffi_tab_backend.Errors.{ok}
use native.Mathlib.Decide.{ℕ_discrete}
use graffi_tab_backend.Model.{Database}
use graffi_tab_backend.Model.Account.{User}
use graffi_tab_backend.Backend.{Backend}
use graffi_tab_backend.Backend.Lookup.{update_user, Request, current_id}
use graffi_tab_backend.Users.Following.{Client, follow, unfollow, add_following, remove_following}

-- Whether the row of `a` lists `b`.
abbrev pub follows : ℕ → ℕ → Database → Bool
follows a b d = elim (find a d.users.rows) [ none ↦ false | some u ↦ contains b u.following ]

pub add_following_edges :
    (a b x y : ℕ) (d : Database)
    → find a d.users.rows ≢ none
    → follows x y (update_user a (add_following b) d) ≡ (follows x y d || (x == a && y == b))
add_following_edges a b x y d h = elim (Option-cases (find x d.users.rows)) [
  | inl e ↦ ground (arith, find-update x a (add_following b) d.users.rows)
  | inr (u, e) ↦ ground (
    arith,
    find-update x a (add_following b) d.users.rows,
    contains-append y u.following (b ∷ []),
  )
]

pub remove_following_edges :
    (a b x y : ℕ) (d : Database) {u : User}
    → find a d.users.rows ≡ some u
    → IsNodup u.following
    → follows x y (update_user a (remove_following b) d) ≡ (follows x y d && not (x == a && y == b))
remove_following_edges a b x y d {u} h k = elim (Option-cases (find x d.users.rows)) [
  | inl e ↦ ground (arith, find-update x a (remove_following b) d.users.rows)
  | inr (v, e) ↦ ground (
    arith,
    find-update x a (remove_following b) d.users.rows,
    contains-remove_ne y b v.following,
    contains-remove_self b u.following k,
  )
]

-- A `follow` of `b` by the current user `a` that returns adds the edge from `a` to `b`, and no
-- other edge changes.
pub follow_edges :
    (r : Request) (c : Client) (a b x y : ℕ) (s s' : Backend) {id : ℕ}
    → current_id r ≡ some a
    → follow r c b s ≡ (ok id, s')
    → follows x y s'.db ≡ (follows x y s.db || (x == a && y == b))
unfolding follow
follow_edges r c a b x y s s' current e = ground (arith, add_following_edges a b x y s.db)

-- `follow` returns the followed user exactly when there is a current user, the rows of both are
-- there, and the two differ.
pub follow-eq-ok_iff :
    (r : Request) (c : Client) (b : ℕ) (s : Backend)
    → ((follow r c b s).0 ≡ ok b) ↔ (
        (a : ℕ) × (current_id r ≡ some a)
        × (find a s.db.users.rows ≢ none)
        × (find b s.db.users.rows ≢ none)
        × (a ≢ b))
unfolding follow
follow-eq-ok_iff r c b s = elim (Option-cases (current_id r)) [
  | inl e ↦ ground arith
  | inr (a, e) ↦
      (λ h. (a, ground arith, ground arith, ground arith, ground arith), λ h. ground arith)
]

-- Nobody follows themselves, and nobody follows another twice.
abbrev pub IsGraph : List (ℕ × User) → Type 0
IsGraph [] = Unit
IsGraph ((j, u) ∷ t) = IsNodup u.following × (contains j u.following ≡ false) × IsGraph t

pub update-IsGraph :
    (k : ℕ) (f : User → User) (t : List (ℕ × User))
    → ((u : User)
        → find k t ≡ some u
        → IsNodup u.following
        → contains k u.following ≡ false
        → IsNodup (f u).following × (contains k (f u).following ≡ false))
    → IsGraph t
    → IsGraph (update k f t)
update-IsGraph k f [] h g = tt
update-IsGraph k f ((j, u) ∷ t) h (p, q, g) = elim (ℕ_discrete k j) [
  | yes e ↦ ground (arith, h u)
  | no e ↦ ground (arith, update-IsGraph k f t (λ v ev. h v (ground arith)) g)
]

-- A new row that follows nobody.
pub append-IsGraph :
    (n : ℕ) (u : User) (t : List (ℕ × User))
    → u.following ≡ []
    → IsGraph t
    → IsGraph (t ++ (n, u) ∷ [])
append-IsGraph n u [] e g = ground arith
append-IsGraph n u ((j, v) ∷ t) e (p, q, g) = (p, q, append-IsGraph n u t e g)

pub add_following-IsGraph :
    (a b : ℕ) (t : List (ℕ × User)) {u : User}
    → find a t ≡ some u
    → a ≢ b
    → contains b u.following ≡ false
    → IsGraph t
    → IsGraph (update a (add_following b) t)
add_following-IsGraph a b t {u} e ne new = update-IsGraph a (add_following b) t λ v ev nodup self.
    ground (arith, IsNodup-concat v.following b nodup, contains-append a v.following (b ∷ []))

pub remove_following-IsGraph :
    (a b : ℕ) (t : List (ℕ × User)) → IsGraph t → IsGraph (update a (remove_following b) t)
remove_following-IsGraph a b t =
    update-IsGraph a (remove_following b) t λ v ev nodup self.
      (IsNodup-remove b v.following nodup, contains-remove-le a b v.following self)

pub find-IsGraph :
    (a : ℕ) (t : List (ℕ × User)) {u : User} → IsGraph t → find a t ≡ some u → IsNodup u.following
find-IsGraph a [] g h = cc
find-IsGraph a ((j, v) ∷ t) {u} (p, q, g) h = ground (arith, find-IsGraph a t {u = u} g)

-- Where nobody follows a user twice, an `unfollow` of `b` by the current user `a` that returns
-- takes the edge from `a` to `b` away, and no other edge changes.
pub unfollow_edges :
    (r : Request) (a b x y : ℕ) (s s' : Backend) {id : ℕ}
    → current_id r ≡ some a
    → IsGraph s.db.users.rows
    → unfollow r b s ≡ (ok id, s')
    → follows x y s'.db ≡ (follows x y s.db && not (x == a && y == b))
unfolding unfollow
unfollow_edges r a b x y s s' current g e = elim (Option-cases (find a s.db.users.rows)) [
  | inl h ↦ ground arith
  | inr (u, h) ↦
      ground (arith, remove_following_edges a b x y s.db h (find-IsGraph a s.db.users.rows g h))
]

-- `follow` keeps the graph simple, whether it returns or throws.
pub follow-IsGraph :
    (r : Request) (c : Client) (b : ℕ) (s : Backend)
    → IsGraph s.db.users.rows
    → IsGraph (follow r c b s).1.db.users.rows
unfolding follow
follow-IsGraph r c b s g = elim (Option-cases (current_id r)) [
  | inl e ↦ ground arith
  | inr (a, e) ↦ elim (Option-cases (find a s.db.users.rows)) [
    | inl e' ↦ ground arith
    | inr (u, e') ↦ ground (arith, add_following-IsGraph a b s.db.users.rows e')
  ]
]

-- `unfollow` keeps the graph simple, whether it returns or throws.
pub unfollow-IsGraph :
    (r : Request) (b : ℕ) (s : Backend)
    → IsGraph s.db.users.rows
    → IsGraph (unfollow r b s).1.db.users.rows
unfolding unfollow
unfollow-IsGraph r b s g = elim (Option-cases (current_id r)) [
  | inl e ↦ ground arith
  | inr (a, e) ↦ ground (arith, remove_following-IsGraph a b s.db.users.rows g)
]

-- A user who is followed already is not told again: nothing changes, and nothing is queued.
pub follow_again :
    (r : Request) (c : Client) (a b : ℕ) (s : Backend)
    → current_id r ≡ some a
    → follows a b s.db ≡ true
    → (follow r c b s).1 ≡ s
unfolding follow
follow_again r c a b s current known = ground arith
