-- ===== src/Comments/Authors.antt =====
-- Who may edit or delete a comment, and what a refused call leaves.
use graffi_tab_backend.Prelude.{
  ℕ, ◌≡◌, ◌≢◌, ◌⊎◌, inl, inr, true, none, some, find, arith, Option-cases,
}
use native.Mathlib.Decide.{ℕ_discrete}
use graffi_tab_backend.Prelude.Text.{Text}
use graffi_tab_backend.Errors.{
  Result, ok, err, rest, streamable_not_found, comment_not_found, user_not_owner,
  user_not_logged_in,
}
use graffi_tab_backend.Model.Content.{Comment}
use graffi_tab_backend.Backend.{Backend}
use graffi_tab_backend.Backend.Lookup.{Request, current_id}
use graffi_tab_backend.Comments.{update_comment, delete_comment, edit_comment}

-- The streamable and the comment are there, and the current user wrote the comment.
abbrev pub Wrote : Request → ℕ → ℕ → Backend → Type 0
Wrote r streamable id s =
    (find streamable s.db.streamables.rows ≢ none)
    × ((v : Comment) × (find id s.db.comments.rows ≡ some v) × (current_id r ≡ some v.user))

-- How an operation for the author ends: with `a` and `s'` for the author, and otherwise with an
-- exception and everything as it was.
abbrev pub Outcome :
    {A : Type 0} → Request → ℕ → ℕ → A → Backend → Backend → Result A × Backend → Type 0
Outcome r streamable id a s s' x =
    (Wrote r streamable id s × (x ≡ (ok a, s')))
    ⊎ ((find streamable s.db.streamables.rows ≡ none) × (x ≡ (err (rest streamable_not_found), s)))
    ⊎ ((find streamable s.db.streamables.rows ≢ none)
        × (find id s.db.comments.rows ≡ none)
        × (x ≡ (err (rest comment_not_found), s)))
    ⊎ ((find id s.db.comments.rows ≢ none)
        × (current_id r ≡ none)
        × (x ≡ (err (rest user_not_logged_in), s)))
    ⊎ ((v : Comment) × (b : ℕ) × (find id s.db.comments.rows ≡ some v)
        × (current_id r ≡ some b)
        × (b ≢ v.user)
        × (x ≡ (err (rest user_not_owner), s)))

-- `deleteComment` marks the comment as deleted for its author. Where the streamable or the
-- comment is not there, nobody is logged in, or somebody else is, it throws the exception for
-- that case and changes nothing.
pub delete_comment-Outcome :
    (r : Request) (streamable id : ℕ) (s : Backend)
    → Outcome r streamable id tt s
        (record s { db = update_comment id (λ c. record c { is_deleted = true }) s.db })
        (delete_comment r streamable id s)
unfolding delete_comment
delete_comment-Outcome r x id s = elim (Option-cases (find x s.db.streamables.rows)) [
  | inl e ↦ inr (inl (e, ground arith))
  | inr (w, e) ↦ elim (Option-cases (find id s.db.comments.rows)) [
    | inl h ↦ inr (inr (inl (ground arith, h, ground arith)))
    | inr (v, h) ↦ elim (Option-cases (current_id r)) [
      | inl c ↦ inr (inr (inr (inl (ground arith, c, ground arith))))
      | inr (b, c) ↦ elim (ℕ_discrete b v.user) [
        | yes same ↦ inl ((ground arith, (v, h, ground arith)), ground arith)
        | no other ↦ inr (inr (inr (inr (v, b, h, c, other, ground arith))))
      ]
    ]
  ]
]

-- `editComment` sets the text and its date for the author, and for nobody else.
pub edit_comment-Outcome :
    (r : Request) (streamable id : ℕ) (text : Text) (s : Backend)
    → Outcome r streamable id id s
        (record s {
          db = update_comment id (λ c. record c { text = text; updated_on = some r.now }) s.db;
        })
        (edit_comment r streamable id text s)
unfolding edit_comment
edit_comment-Outcome r x id text s = elim (Option-cases (find x s.db.streamables.rows)) [
  | inl e ↦ inr (inl (e, ground arith))
  | inr (w, e) ↦ elim (Option-cases (find id s.db.comments.rows)) [
    | inl h ↦ inr (inr (inl (ground arith, h, ground arith)))
    | inr (v, h) ↦ elim (Option-cases (current_id r)) [
      | inl c ↦ inr (inr (inr (inl (ground arith, c, ground arith))))
      | inr (b, c) ↦ elim (ℕ_discrete b v.user) [
        | yes same ↦ inl ((ground arith, (v, h, ground arith)), ground arith)
        | no other ↦ inr (inr (inr (inr (v, b, h, c, other, ground arith))))
      ]
    ]
  ]
]
