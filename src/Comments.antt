-- ===== src/Comments.antt =====
-- service/streamable/CommentService.java.
pub mod Authors
pub mod Lists
mod Tests
use graffi_tab_backend.Prelude.{
  ℕ, ◌+◌, true, false, not, Option, none, some, [], ◌∷◌, ◌++◌, ◌==◌, ◌&&◌, List, find, update,
  select,
}
use graffi_tab_backend.Prelude.Text.{Text}
use graffi_tab_backend.Prelude.Sorting.{order_by}
use graffi_tab_backend.Paging.{PagedList, get_items}
use graffi_tab_backend.Errors.{comment_not_found, user_not_owner, rest}
use graffi_tab_backend.Model.{Database}
use graffi_tab_backend.Model.Content.{Comment}
use graffi_tab_backend.Backend.{Action, pure, throw_if, or_throw, gets, modify, ◌>>=◌, ◌>>◌}
use graffi_tab_backend.Backend.Transactions.{in_transaction, in_transaction_with_result}
use graffi_tab_backend.Backend.Lookup.{find_user_by_id, deref, Request, get_current_user}
use graffi_tab_backend.Streamables.{existing_streamable, validate_text}

-- `findCommentById`
abbrev pub find_comment_by_id : ℕ → Action (Option Comment)
find_comment_by_id id = gets (λ d. find id d.comments.rows)

abbrev pub update_comment : ℕ → (Comment → Comment) → Database → Database
update_comment id f d = record d {
  comments = record (d.comments) { rows = update id f d.comments.rows };
}

-- `Comment.comment()` with its user, its text and its streamable.
abbrev pub new_comment : ℕ → ℕ → Text → ℕ → Comment
new_comment streamable user text now = record {
  streamable = streamable;
  user = user;
  text = text;
  created_on = now;
  updated_on = none;
  is_deleted = false;
}

abbrev pub persist_comment : Comment → Database → Database
persist_comment v d = record d {
  comments = record {
    rows = d.comments.rows ++ (d.comments.next, v) ∷ [];
    next = d.comments.next + 1;
  };
}

-- `postComment`; its result is the id of the new row.
unfoldable pub post_comment : Request → ℕ → Text → Action ℕ
unfolding in_transaction_with_result validate_text
post_comment r streamable text = do
  validate_text (some text)
  in_transaction_with_result do
    existing_streamable streamable
    current ← get_current_user r
    user ← find_user_by_id current
    deref user
    id ← gets (λ d. d.comments.next)
    modify (persist_comment (new_comment streamable current text r.now))
    pure id

-- The comment, for its author only; the streamable of the request has to be there.
abbrev pub own_comment : Request → ℕ → ℕ → Action Comment
own_comment r streamable id = do
  existing_streamable streamable
  found ← find_comment_by_id id
  comment ← or_throw found (rest comment_not_found)
  current ← get_current_user r
  throw_if (not (comment.user == current)) (rest user_not_owner)
  pure comment

-- `deleteComment`
unfoldable pub delete_comment : Request → ℕ → ℕ → Action (Unit {0})
unfolding in_transaction
delete_comment r streamable id =
    in_transaction do
      own_comment r streamable id
      modify (update_comment id (λ c. record c { is_deleted = true }))

-- `editComment`
unfoldable pub edit_comment : Request → ℕ → ℕ → Text → Action ℕ
unfolding in_transaction
edit_comment r streamable id text = in_transaction do
  own_comment r streamable id
  modify (update_comment id (λ c. record c { text = text; updated_on = some r.now }))
  pure id

-- `Comment.getComments`
abbrev pub comments_of : ℕ → Database → List (ℕ × Comment)
comments_of streamable d =
    order_by (λ c. c.created_on)
      (select (λ _ c. c.streamable == streamable && not c.is_deleted) d.comments.rows)

-- `getCommentsResult`, for Hibernate's pages
unfoldable pub get_comments :
    (ℕ → ℕ → List (ℕ × Comment) → List (ℕ × Comment))
    → ℕ
    → Option ℕ
    → Option ℕ
    → Action (PagedList (ℕ × Comment))
unfolding in_transaction
get_comments query_list streamable offset limit = in_transaction do
  existing_streamable streamable
  rows ← gets (comments_of streamable)
  pure (get_items query_list rows offset limit)
