-- ===== src/Users/Profiles/Active.antt =====
-- The users with the most streamables, deleted ones included.
use graffi_tab_backend.Prelude.{
  ℕ, ◌≡◌, ◌∙◌, refl, ap, inl, inr, ◌⊎◌, find, true, List, [], ◌∷◌, ◌==◌, length, select, update,
  arith, Option-cases, Bool-cases,
}
use graffi_tab_backend.Prelude.Sorting.{order_by}
use graffi_tab_backend.Model.{Database}
use graffi_tab_backend.Model.Account.{User}
use graffi_tab_backend.Model.Content.{Streamable}
use graffi_tab_backend.Backend.{Backend}
use graffi_tab_backend.Backend.Transactions.{in_transaction}
use graffi_tab_backend.Backend.Lookup.{Request, current_id}
use graffi_tab_backend.Streamables.{update_streamable}
use graffi_tab_backend.Streamables.Owner.{delete_streamable}
use graffi_tab_backend.Users.Profiles.{is_activated, with_counts, without_counts, most_active_users}

count-deleted :
    (user k : ℕ) (t : List (ℕ × Streamable))
    → length (select (λ _ v. v.user == user) (update k (λ v. record v { is_deleted = true }) t))
      ≡ length (select (λ _ v. v.user == user) t)
count-deleted user k [] = refl
count-deleted user k ((j, v) ∷ t) = ground (arith, count-deleted user k t)

with_counts-deleted :
    (k : ℕ) (d : Database) (t : List (ℕ × User))
    → with_counts (update_streamable k (λ v. record v { is_deleted = true }) d) t ≡ with_counts d t
with_counts-deleted k d [] = refl
with_counts-deleted k d ((id, u) ∷ t) =
    ground (arith, count-deleted id k d.streamables.rows, with_counts-deleted k d t)

delete_leaves :
    (r : Request) (id : ℕ) (s : Backend)
    → ((delete_streamable r id s).1.db ≡ s.db)
      ⊎ ((delete_streamable r id s).1.db
          ≡ update_streamable id (λ v. record v { is_deleted = true }) s.db)
unfolding delete_streamable in_transaction
delete_leaves r id s = elim (Option-cases (find id s.db.streamables.rows)) [
  | inl gone ↦ inl (ground arith)
  | inr (v, there) ↦ elim (Option-cases (current_id r)) [
    | inl nobody ↦ inl (ground arith)
    | inr (a, known) ↦ elim (Bool-cases (v.user == a)) [
      | inl own ↦ inr (ground arith)
      | inr other ↦ inl (ground arith)
    ]
  ]
]

-- A `delete_streamable` does not change the list of the most active users, whatever it deletes.
pub delete-most_active_users :
    (r : Request) (id : ℕ) (s : Backend)
    → most_active_users (delete_streamable r id s).1.db ≡ most_active_users s.db
delete-most_active_users r id s = elim (delete_leaves r id s) [
  | inl same ↦ ap most_active_users same
  | inr deleted ↦
      ap most_active_users deleted
      ∙ ap (λ t. without_counts (order_by (λ p. p.1) t))
          (with_counts-deleted id s.db (select (λ _ u. is_activated u) s.db.users.rows))
]
