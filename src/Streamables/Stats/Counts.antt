-- ===== src/Streamables/Stats/Counts.antt =====
-- What the operations on a streamable and on its comments do to the numbers.
use graffi_tab_backend.Prelude.{
  ℕ, ◌+◌, ◌≡◌, ◌≢◌, inl, inr, true, none, some, [], ◌∷◌, contains, contains-append, find,
  find-update, length, length-append, if◌then◌else◌, arith, Bool-cases,
}
use graffi_tab_backend.Errors.{ok}
use graffi_tab_backend.Model.Content.{Streamable}
use graffi_tab_backend.Backend.{Backend}
use graffi_tab_backend.Backend.Transactions.{in_transaction}
use graffi_tab_backend.Backend.Lookup.{Request, current_id}
use graffi_tab_backend.Users.Following.{Client}
use graffi_tab_backend.Streamables.Reactions.{like, add_liker}
use graffi_tab_backend.Streamables.Reactions.Likes.{like_row}
use graffi_tab_backend.Streamables.Stats.{comments_count_of, process_streamable_stats}

stats_row :
    (r : Request) (a id : ℕ) (s : Backend) {v : Streamable}
    → current_id r ≡ some a
    → find id s.db.streamables.rows ≡ some v
    → process_streamable_stats r id s ≡ (
      ok (record {
        comments_count = comments_count_of id s.db;
        likers_count = length v.likers;
        liked_by_current_user = contains a v.likers;
      }),
      s,
    )
unfolding process_streamable_stats in_transaction
stats_row r a id s {v} c e = ground arith

-- Where the current user has an account and the streamable is there, a `like` makes the numbers say
-- that the user likes it, with one liker more unless they said so before, and leaves the number of
-- comments.
pub like-process_streamable_stats :
    (r : Request) (c : Client) (a id : ℕ) (s : Backend) {v : Streamable}
    → current_id r ≡ some a
    → find a s.db.users.rows ≢ none
    → find id s.db.streamables.rows ≡ some v
    → (process_streamable_stats r id (like r c id s).1).0
      ≡ ok (record {
        comments_count = comments_count_of id s.db;
        likers_count = if contains a v.likers then length v.likers else length v.likers + 1;
        liked_by_current_user = true;
      })
like-process_streamable_stats r c a id s {v} current there e =
    let row = like_row r c a id s {v = v} current there e in
    let added = find-update id id (add_liker a) s.db.streamables.rows in
    let after = (like r c id s).1 in
    elim (Bool-cases (contains a v.likers)) [
      | inl l ↦ ground (arith, row, stats_row r a id after {v = v} current)
      | inr l ↦ ground (
        arith,
        row,
        added,
        contains-append a v.likers (a ∷ []),
        length-append v.likers (a ∷ []),
        stats_row r a id after {v = add_liker a v} current,
      )
    ]
