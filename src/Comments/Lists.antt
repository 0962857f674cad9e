-- ===== src/Comments/Lists.antt =====
-- The list of the comments on a streamable, and the number that its statistics show.
use graffi_tab_backend.Prelude.{
  ℕ, ◌+◌, ◌≡◌, ◌∙◌, ap, inl, inr, Bool, true, false, not, ◌&&◌, ◌==◌, some, List, [], ◌∷◌, ◌++◌,
  find, find-append, update, length, length-append, select, select-append, Below, if◌then◌else◌,
  arith, Option-cases, Bool-cases,
}
use graffi_tab_backend.Prelude.Text.{Text}
use graffi_tab_backend.Prelude.Sorting.{order_by, length-order_by}
use graffi_tab_backend.Errors.{ok}
use graffi_tab_backend.Model.{Database}
use graffi_tab_backend.Model.Content.{Comment, Streamable}
use graffi_tab_backend.Backend.{Backend}
use graffi_tab_backend.Backend.Transactions.{in_transaction, in_transaction_with_result}
use graffi_tab_backend.Backend.Lookup.{Request, current_id}
use graffi_tab_backend.Streamables.{validate_text, has_text, too_long}
use graffi_tab_backend.Streamables.Stats.{comments_count_of}
use graffi_tab_backend.Comments.{
  comments_of, new_comment, persist_comment, update_comment, post_comment, delete_comment,
}

-- A change of the row that was added last, after which it does not meet the test, leaves what
-- the test selects among the others.
select-update_last :
    (p : ℕ → Comment → Bool) (n : ℕ) (f : Comment → Comment) (v : Comment) (t : List (ℕ × Comment))
    → Below n t
    → p n (f v) ≡ false
    → select p (update n f (t ++ (n, v) ∷ [])) ≡ select p t
select-update_last p n f v [] b e = ground arith
select-update_last p n f v ((j, w) ∷ t) (lt, b) e = ground (arith, select-update_last p n f v t b e)

length-comments_of : (x : ℕ) (d : Database) → length (comments_of x d) ≡ comments_count_of x d
length-comments_of x d =
    length-order_by (λ c. c.created_on)
      (select (λ _ c. c.streamable == x && not c.is_deleted) d.comments.rows)

posted :
    (r : Request) (x a id : ℕ) (text : Text) (s s' : Backend)
    → current_id r ≡ some a
    → post_comment r x text s ≡ (ok id, s')
    → (id ≡ s.db.comments.next)
      × (s'.db ≡ persist_comment (new_comment x a text r.now) s.db)
      × ((w : Streamable) × (find x s.db.streamables.rows ≡ some w))
unfolding post_comment in_transaction_with_result in_transaction validate_text
posted r x a id text s s' c e = elim (Bool-cases (has_text (some text) && too_long (some text))) [
  | inl long ↦ ground arith
  | inr short ↦ elim (Option-cases (find x s.db.streamables.rows)) [
    | inl none_there ↦ ground arith
    | inr (w, there) ↦ elim (Option-cases (find a s.db.users.rows)) [
      | inl gone ↦ ground arith
      | inr (u, known) ↦ (ground arith, ground arith, (w, there))
    ]
  ]
]

-- Where the ids of the comments are below the next one, a comment that the current user posts
-- makes the list of the comments of its streamable one longer and leaves the length of any other;
-- its deletion by the same user returns, and after it the list of the comments of any streamable
-- is what it was before.
pub delete-post_comment :
    (r : Request) (x y a id : ℕ) (text : Text) (s s' : Backend)
    → Below s.db.comments.next s.db.comments.rows
    → current_id r ≡ some a
    → post_comment r x text s ≡ (ok id, s')
    → (length (comments_of y s'.db)
        ≡ (if x == y then length (comments_of y s.db) + 1 else length (comments_of y s.db)))
      × ((delete_comment r x id s').0 ≡ ok tt)
      × (comments_of y (delete_comment r x id s').1.db ≡ comments_of y s.db)
unfolding delete_comment in_transaction
delete-post_comment r x y a id text s s' below current e =
    let v : Comment = new_comment x a text r.now in
    let (fresh, left, (w, there)) = posted r x a id text s s' current e in
    let shown : ℕ → Comment → Bool = (λ _ c. c.streamable == y && not c.is_deleted) in
    let row : find id s'.db.comments.rows ≡ some v =
      ground (arith, find-append id s.db.comments.next v s.db.comments.rows below) in
    let del : Comment → Comment = (λ c. record c { is_deleted = true }) in
    let kept : select shown (update id del s'.db.comments.rows) ≡ select shown s.db.comments.rows =
      ground (
        arith,
        select-update_last shown s.db.comments.next del v s.db.comments.rows below (ground arith),
      ) in
    let gone : (delete_comment r x id s').1.db ≡ update_comment id del s'.db =
      ground (arith, row) in
    (
      length-comments_of y s'.db
          ∙ ground (
            arith,
            length-comments_of y s.db,
            select-append shown s.db.comments.rows ((s.db.comments.next, v) ∷ []),
            length-append (select shown s.db.comments.rows)
                (select shown ((s.db.comments.next, v) ∷ [])),
          ),
      ground (arith, row),
      ap (comments_of y) gone ∙ ap (order_by (λ c. c.created_on)) kept,
    )
