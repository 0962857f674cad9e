-- ===== src/Streamables/Reactions/Likes.antt =====
-- `like` and `unlike` as updates of a relation: who likes what.
use graffi_tab_backend.Prelude.{
  ℕ, ◌≡◌, ◌≢◌, inl, inr, Bool, false, if◌then◌else◌, not, ◌&&◌, ◌||◌, none, some, List, [], ◌∷◌,
  ◌==◌, find, update, find-update, contains, contains-append, contains-remove_ne,
  contains-remove_self, IsNodup, IsNodup-concat, IsNodup-remove, arith, Option-cases, Bool-cases,
}
use native.Mathlib.Decide.{ℕ_discrete}
use graffi_tab_backend.Errors.{ok}
use graffi_tab_backend.Model.{Database}
use graffi_tab_backend.Model.Content.{Streamable}
use graffi_tab_backend.Backend.{Backend}
use graffi_tab_backend.Backend.Lookup.{Request, current_id}
use graffi_tab_backend.Users.Following.{Client}
use graffi_tab_backend.Streamables.{update_streamable}
use graffi_tab_backend.Streamables.Reactions.{like, unlike, add_liker, remove_liker}

-- Whether the row of `x` lists `user` among its likers.
abbrev pub likes : ℕ → ℕ → Database → Bool
likes user x d = elim (find x d.streamables.rows) [ none ↦ false | some v ↦ contains user v.likers ]

-- Nobody likes a streamable twice.
abbrev pub LikedOnce : List (ℕ × Streamable) → Type 0
LikedOnce [] = Unit
LikedOnce ((j, v) ∷ t) = IsNodup v.likers × LikedOnce t

add_liker_edges :
    (a x b y : ℕ) (d : Database)
    → find x d.streamables.rows ≢ none
    → likes b y (update_streamable x (add_liker a) d) ≡ (likes b y d || (b == a && y == x))
add_liker_edges a x b y d h = elim (Option-cases (find y d.streamables.rows)) [
  | inl e ↦ ground (arith, find-update y x (add_liker a) d.streamables.rows)
  | inr (v, e) ↦
      ground (
        arith,
        find-update y x (add_liker a) d.streamables.rows,
        contains-append b v.likers (a ∷ []),
      )
]

remove_liker_edges :
    (a x b y : ℕ) (d : Database) {w : Streamable}
    → find x d.streamables.rows ≡ some w
    → IsNodup w.likers
    → likes b y (update_streamable x (remove_liker a) d) ≡ (likes b y d && not (b == a && y == x))
remove_liker_edges a x b y d {w} h k = elim (Option-cases (find y d.streamables.rows)) [
  | inl e ↦ ground (arith, find-update y x (remove_liker a) d.streamables.rows)
  | inr (v, e) ↦ ground (
    arith,
    find-update y x (remove_liker a) d.streamables.rows,
    contains-remove_ne b a v.likers,
    contains-remove_self a w.likers k,
  )
]

like_missing :
    (r : Request) (c : Client) (a x : ℕ) (s : Backend)
    → current_id r ≡ some a
    → find x s.db.streamables.rows ≡ none
    → (id : ℕ) → (like r c x s).0 ≢ ok id
unfolding like
like_missing r c a x s current h id e = ground arith

-- What `like` does to the database, for a user whose row is there.
pub like_row :
    (r : Request) (c : Client) (a x : ℕ) (s : Backend) {v : Streamable}
    → current_id r ≡ some a
    → find a s.db.users.rows ≢ none
    → find x s.db.streamables.rows ≡ some v
    → (like r c x s).1.db
      ≡ (if contains a v.likers then s.db else update_streamable x (add_liker a) s.db)
unfolding like
like_row r c a x s {v} current there h = elim (Option-cases (find a s.db.users.rows)) [
  | inl k ↦ ground arith
  | inr (u, k) ↦ elim (Bool-cases (contains a v.likers)) [
    | inl l ↦ ground arith
    | inr l ↦ elim (Bool-cases (v.user == a)) [ inl o ↦ ground arith | inr o ↦ ground arith ]
  ]
]

-- A `like` by the current user, whose row is there, that returns adds that like, and no other
-- changes.
pub like_edges :
    (r : Request) (c : Client) (a x b y : ℕ) (s : Backend) {id : ℕ}
    → current_id r ≡ some a
    → find a s.db.users.rows ≢ none
    → (like r c x s).0 ≡ ok id
    → likes b y (like r c x s).1.db ≡ (likes b y s.db || (b == a && y == x))
like_edges r c a x b y s {id} current there e = elim (Option-cases (find x s.db.streamables.rows)) [
  | inl h ↦ absurd (like_missing r c a x s current h id e)
  | inr (v, h) ↦ rw (like_row r c a x s current there h) (elim (Bool-cases (contains a v.likers)) [
    | inl l ↦ ground arith
    | inr l ↦ ground (arith, add_liker_edges a x b y s.db)
  ])
]

find-LikedOnce :
    (x : ℕ) (t : List (ℕ × Streamable)) {v : Streamable}
    → LikedOnce t
    → find x t ≡ some v
    → IsNodup v.likers
find-LikedOnce x [] g h = cc
find-LikedOnce x ((j, w) ∷ t) {v} (p, g) h = ground (arith, find-LikedOnce x t {v = v} g)

-- Where nobody likes a streamable twice, an `unlike` by the current user that returns takes that
-- like away, and no other changes.
pub unlike_edges :
    (r : Request) (a x b y : ℕ) (s s' : Backend) {id : ℕ}
    → current_id r ≡ some a
    → LikedOnce s.db.streamables.rows
    → unlike r x s ≡ (ok id, s')
    → likes b y s'.db ≡ (likes b y s.db && not (b == a && y == x))
unfolding unlike
unlike_edges r a x b y s s' current g e = elim (Option-cases (find x s.db.streamables.rows)) [
  | inl h ↦ ground arith
  | inr (v, h) ↦
      ground (arith, remove_liker_edges a x b y s.db h (find-LikedOnce x s.db.streamables.rows g h))
]

update-LikedOnce :
    (x : ℕ) (f : Streamable → Streamable) (t : List (ℕ × Streamable))
    → ((v : Streamable) → find x t ≡ some v → IsNodup v.likers → IsNodup (f v).likers)
    → LikedOnce t
    → LikedOnce (update x f t)
update-LikedOnce x f [] h g = tt
update-LikedOnce x f ((j, v) ∷ t) h (p, g) = elim (ℕ_discrete x j) [
  | yes e ↦ ground (arith, h v)
  | no e ↦ ground (arith, update-LikedOnce x f t (λ w ew. h w (ground arith)) g)
]

-- `like` keeps every list of likers without repetition, whether it returns or throws.
pub like-LikedOnce :
    (r : Request) (c : Client) (x : ℕ) (s : Backend)
    → LikedOnce s.db.streamables.rows
    → LikedOnce (like r c x s).1.db.streamables.rows
unfolding like
like-LikedOnce r c x s g = elim (Option-cases (current_id r)) [
  | inl e ↦ ground arith
  | inr (a, e) ↦ elim (Option-cases (find x s.db.streamables.rows)) [
    | inl h ↦ ground arith
    | inr (v, h) ↦ elim (Bool-cases (contains a v.likers)) [
      | inl l ↦ elim (Option-cases (find a s.db.users.rows)) [
        | inl k ↦ ground arith
        | inr (u, k) ↦ ground arith
      ]
      | inr l ↦
          let more =
            update-LikedOnce x (add_liker a) s.db.streamables.rows
              (λ w ew n. ground (arith, IsNodup-concat w.likers a n)) g in
          elim (Option-cases (find a s.db.users.rows)) [
            | inl k ↦ elim (Bool-cases (v.user == a)) [
              | inl o ↦ ground arith
              | inr o ↦ ground arith
            ]
            | inr (u, k) ↦ elim (Bool-cases (v.user == a)) [
              | inl o ↦ ground arith
              | inr o ↦ ground arith
            ]
          ]
    ]
  ]
]

-- `unlike` keeps every list of likers without repetition, whether it returns or throws.
pub unlike-LikedOnce :
    (r : Request) (x : ℕ) (s : Backend)
    → LikedOnce s.db.streamables.rows
    → LikedOnce (unlike r x s).1.db.streamables.rows
unfolding unlike
unlike-LikedOnce r x s g = elim (Option-cases (current_id r)) [
  | inl e ↦ ground arith
  | inr (a, e) ↦ ground (
    arith,
    update-LikedOnce x (remove_liker a) s.db.streamables.rows
        (λ w ew n. IsNodup-remove a w.likers n) g,
  )
]
