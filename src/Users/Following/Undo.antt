-- ===== src/Users/Following/Undo.antt =====
-- `unfollow` after `follow`.
use graffi_tab_backend.Prelude.{
  ℕ, ◌≡◌, ◌≢◌, ◌∙◌, inl, inr, false, none, some, List, [], ◌∷◌, ◌++◌, contains, remove, find,
  find-update, update, arith, Option-cases,
}
use graffi_tab_backend.Errors.{ok}
use graffi_tab_backend.Model.Account.{User}
use graffi_tab_backend.Backend.{Backend}
use graffi_tab_backend.Backend.Lookup.{Request, current_id, update_user}
use graffi_tab_backend.Users.Following.{Client, follow, unfollow, add_following, remove_following}
use graffi_tab_backend.Users.Following.Graph.{follows}

remove_concat : (b : ℕ) (xs : List ℕ) → contains b xs ≡ false → remove b (xs ++ b ∷ []) ≡ xs
remove_concat b [] h = ground arith
remove_concat b (x ∷ xs) h = ground (arith, remove_concat b xs)

-- A change of the row and then its inverse.
update_undo :
    (k : ℕ) (f g : User → User) (t : List (ℕ × User)) {u : User}
    → find k t ≡ some u
    → g (f u) ≡ u
    → update k g (update k f t) ≡ t
update_undo k f g [] {u} e h = cc
update_undo k f g ((j, v) ∷ t) {u} e h = ground (arith, update_undo k f g t {u = u})

followed :
    (r : Request) (c : Client) (a b : ℕ) (s s' : Backend) {id : ℕ}
    → current_id r ≡ some a
    → follows a b s.db ≡ false
    → follow r c b s ≡ (ok id, s')
    → (s'.db ≡ update_user a (add_following b) s.db)
      × (find a s.db.users.rows ≢ none)
      × (find b s.db.users.rows ≢ none)
unfolding follow
followed r c a b s s' current new e = (ground arith, ground arith, ground arith)

unfollowed :
    (r : Request) (a b : ℕ) (s : Backend)
    → current_id r ≡ some a
    → find a s.db.users.rows ≢ none
    → find b s.db.users.rows ≢ none
    → unfollow r b s ≡ (ok b, record s { db = update_user a (remove_following b) s.db })
unfolding unfollow
unfollowed r a b s current ha hb = ground arith

still_there :
    (x a : ℕ) (f : User → User) (t : List (ℕ × User))
    → find x t ≢ none
    → find x (update a f t) ≢ none
still_there x a f t h = elim (Option-cases (find x t)) [
  | inl e ↦ absurd (h e)
  | inr (u, e) ↦ ground (arith, find-update x a f t)
]

undone :
    (a b : ℕ) (s : Backend)
    → follows a b s.db ≡ false
    → find a s.db.users.rows ≢ none
    → update a (remove_following b) (update a (add_following b) s.db.users.rows) ≡ s.db.users.rows
undone a b s new h = elim (Option-cases (find a s.db.users.rows)) [
  | inl e ↦ absurd (h e)
  | inr (u, e) ↦
      update_undo a (add_following b) (remove_following b) s.db.users.rows {u = u} e
        (ground (arith, remove_concat b u.following))
]

-- Where the current user did not follow the other, a follow that returns, and then the unfollow
-- of the same user, leave the database as it was: the unfollow returns too, and only the jobs
-- for the notification and the activity of the follow remain.
pub unfollow-follow :
    (r : Request) (c : Client) (a b : ℕ) (s s' : Backend) {id : ℕ}
    → current_id r ≡ some a
    → follows a b s.db ≡ false
    → follow r c b s ≡ (ok id, s')
    → unfollow r b s' ≡ (ok b, record s' { db = s.db })
unfollow-follow r c a b s s' current new e =
    let (left, ha, hb) = followed r c a b s s' current new e in
    let back =
      unfollowed r a b s' current (rw left (still_there a a (add_following b) s.db.users.rows ha))
        (rw left (still_there b a (add_following b) s.db.users.rows hb)) in
    let same : update_user a (remove_following b) s'.db ≡ s.db = rw (left, undone a b s new ha) in
    back ∙ rw same
