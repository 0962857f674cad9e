-- ===== src/Users/Profiles/Relations.antt =====
-- The lists of a profile against the graph of who follows whom.
use graffi_tab_backend.Prelude.{
  ℕ, ◌≡◌, ◌∙◌, ◌⊎◌, refl, ap, inl, inr, Bool, true, false, not, ◌&&◌, none, some, List, [], ◌∷◌,
  ◌==◌, is_some, contains, find, find-update, update-IsKeyed, select, IsKeyed, arith, Bool-cases,
  Option-cases,
}
use graffi_tab_backend.Prelude.Sorting.{listed, listed-order_by, listed-select}
use graffi_tab_backend.Errors.{ok}
use graffi_tab_backend.Model.{Database}
use graffi_tab_backend.Model.Account.{User}
use graffi_tab_backend.Backend.{Backend}
use graffi_tab_backend.Backend.Lookup.{Request, current_id, update_user}
use graffi_tab_backend.Users.Following.{Client, follow, add_following}
use graffi_tab_backend.Users.Following.Graph.{follows, follow_edges}
use graffi_tab_backend.Users.Profiles.{
  is_activated, rows_of, get_followers, get_following, who_to_follow,
}

listed-rows_of :
    (id : ℕ) (ids : List ℕ) (t : List (ℕ × User))
    → listed id (rows_of ids t) ≡ (contains id ids && is_some (find id t))
listed-rows_of id [] t = refl
listed-rows_of id (j ∷ ids) t = elim (Option-cases (find j t)) [
  | inl e ↦ ground (arith, listed-rows_of id ids t)
  | inr (u, e) ↦ ground (arith, listed-rows_of id ids t)
]

-- Where no two users share an id and both accounts are activated, a user is among the followers
-- of another exactly when the other is among those whom the user follows, which is when the graph
-- has the edge.
pub get_followers-get_following :
    (a b : ℕ) (d : Database) {u v : User}
    → IsKeyed d.users.rows
    → find a d.users.rows ≡ some u
    → find b d.users.rows ≡ some v
    → is_activated u ≡ true
    → is_activated v ≡ true
    → (listed a (get_followers b d) ≡ follows a b d)
      × (listed b (get_following a d) ≡ follows a b d)
get_followers-get_following a b d {u} {v} k ra rb au av = (
  ground (arith, listed-select (λ _ f. contains b f.following) a d.users.rows k),
  ground (arith, listed-rows_of b u.following d.users.rows),
)

-- Whom the site would recommend, were they not followed.
abbrev is_candidate : ℕ → ℕ → Database → Bool
is_candidate a x d = elim (find x d.users.rows) [
  | none ↦ false
  | some u ↦ u.is_recommendation && is_activated u && not (x == a)
]

who_to_follow_iff :
    (a x : ℕ) (d : Database)
    → IsKeyed d.users.rows
    → listed x (who_to_follow a d) ≡ (is_candidate a x d && not (follows a x d))
who_to_follow_iff a x d k =
    let p : ℕ → User → Bool =
      (λ j u. u.is_recommendation && is_activated u && not (j == a) && not (follows a j d)) in
    listed-order_by (λ u. u.recommendation_rank) x (select p d.users.rows)
    ∙ listed-select p x d.users.rows k
    ∙ parts
  where
    parts :
        elim (find x d.users.rows) [
          | none ↦ false
          | some u ↦ u.is_recommendation && is_activated u && not (x == a) && not (follows a x d)
        ]
        ≡ (is_candidate a x d && not (follows a x d))
    parts = elim (Option-cases (find x d.users.rows)) [
      | inl e ↦ ground arith
      | inr (u, e) ↦ ground arith
    ]

follow_leaves :
    (r : Request) (c : Client) (a b : ℕ) (s s' : Backend) {id : ℕ}
    → current_id r ≡ some a
    → follow r c b s ≡ (ok id, s')
    → (s'.db ≡ s.db) ⊎ (s'.db ≡ update_user a (add_following b) s.db)
unfolding follow
follow_leaves r c a b s s' current e = elim (Bool-cases (follows a b s.db)) [
  | inl known ↦ inl (ground arith)
  | inr new ↦ inr (ground arith)
]

following_candidate :
    (a b x : ℕ) (d : Database)
    → is_candidate a x (update_user a (add_following b) d) ≡ is_candidate a x d
following_candidate a b x d = elim (Option-cases (find x d.users.rows)) [
  | inl h ↦ ground (arith, find-update x a (add_following b) d.users.rows)
  | inr (u, h) ↦ ground (arith, find-update x a (add_following b) d.users.rows)
]

follow-is_candidate :
    (r : Request) (c : Client) (a b x : ℕ) (s s' : Backend) {id : ℕ}
    → current_id r ≡ some a
    → follow r c b s ≡ (ok id, s')
    → is_candidate a x s'.db ≡ is_candidate a x s.db
follow-is_candidate r c a b x s s' {id} current e =
    elim (follow_leaves r c a b s s' {id = id} current e) [
      | inl same ↦ ap (is_candidate a x) same
      | inr added ↦ ap (is_candidate a x) added ∙ following_candidate a b x s.db
    ]

follow-IsKeyed :
    (r : Request) (c : Client) (a b : ℕ) (s s' : Backend) {id : ℕ}
    → current_id r ≡ some a
    → IsKeyed s.db.users.rows
    → follow r c b s ≡ (ok id, s')
    → IsKeyed s'.db.users.rows
follow-IsKeyed r c a b s s' {id} current k e =
    elim (follow_leaves r c a b s s' {id = id} current e) [
      | inl same ↦ rw same k
      | inr added ↦ rw added (update-IsKeyed a (add_following b) s.db.users.rows k)
    ]

-- Where no two users share an id, a `follow` of `b` that returns takes `b` off the list of the
-- users whom the site recommends to the current one, and nobody else.
pub follow-who_to_follow :
    (r : Request) (c : Client) (a b x : ℕ) (s s' : Backend) {id : ℕ}
    → IsKeyed s.db.users.rows
    → current_id r ≡ some a
    → follow r c b s ≡ (ok id, s')
    → listed x (who_to_follow a s'.db) ≡ (listed x (who_to_follow a s.db) && not (x == b))
follow-who_to_follow r c a b x s s' {id} k current e = ground (
  arith,
  who_to_follow_iff a x s.db k,
  who_to_follow_iff a x s'.db (follow-IsKeyed r c a b s s' {id = id} current k e),
  follow-is_candidate r c a b x s s' {id = id} current e,
  follow_edges r c a b a x s s' {id = id} current e,
)
