-- ===== src/Streamables/Visibility/Hidden.antt =====
-- What the lists of streamables have of deleted and of private ones.
use graffi_tab_backend.Prelude.{
  ℕ, ◌≡◌, refl, inl, inr, Bool, true, false, not, ◌&&◌, none, some, List, [], ◌∷◌, ◌==◌, length,
  contains, select, find, find-update, IsKeyed, update-IsKeyed, ◌≢◌, arith, Option-cases,
  Bool-cases,
}
use graffi_tab_backend.Prelude.Sorting.{
  listed, order_by, listed-order_by, IsSorted, order_by-IsSorted,
}
use graffi_tab_backend.Errors.{ok}
use graffi_tab_backend.Model.{Database}
use graffi_tab_backend.Model.Content.{Streamable}
use graffi_tab_backend.Backend.{Backend}
use graffi_tab_backend.Backend.Lookup.{Request, current_id}
use graffi_tab_backend.Streamables.{update_streamable}
use graffi_tab_backend.Streamables.Owner.{delete_streamable, make_public_or_private}
use graffi_tab_backend.Streamables.Visibility.{
  is_visible, newest_streamables, popular_streamables, liked_streamables, user_streamables,
  private_streamables,
}

-- Whether the row of the id is there and meets the test.
abbrev pub meets : (Streamable → Bool) → ℕ → List (ℕ × Streamable) → Bool
meets p id t = elim (find id t) [ none ↦ false | some v ↦ p v ]

listed-select_absent :
    (p : Streamable → Bool) (id : ℕ) (t : List (ℕ × Streamable))
    → find id t ≡ none
    → listed id (select (λ _. p) t) ≡ false
listed-select_absent p id [] h = refl
listed-select_absent p id ((j, v) ∷ t) h = ground (arith, listed-select_absent p id t)

listed-select :
    (p : Streamable → Bool) (id : ℕ) (t : List (ℕ × Streamable))
    → IsKeyed t
    → listed id (select (λ _. p) t) ≡ meets p id t
listed-select p id [] h = refl
listed-select p id ((j, v) ∷ t) (n, h) = elim (Bool-cases (id == j)) [
  | inl same ↦ elim (Bool-cases (p v)) [
    | inl hit ↦ ground arith
    | inr miss ↦ ground (arith, listed-select_absent p id t)
  ]
  | inr other ↦ ground (arith, listed-select p id t h)
]

-- Where no two streamables share an id, the list of the newest streamables is in order, the
-- newest first, and has the id of a streamable exactly when its row is there and the user may
-- see it.
pub newest_streamables_lem :
    (current : ℕ) (d : Database)
    → IsKeyed d.streamables.rows
    → IsSorted (λ v. v.created_on) (newest_streamables current d)
      × ((id : ℕ)
          → listed id (newest_streamables current d)
            ≡ meets (is_visible current) id d.streamables.rows)
newest_streamables_lem current d k = (
  order_by-IsSorted (λ v. v.created_on) (select (λ _. is_visible current) d.streamables.rows),
  λ id. ground (
    arith,
    listed-order_by (λ v. v.created_on) id (select (λ _. is_visible current) d.streamables.rows),
    listed-select (is_visible current) id d.streamables.rows k,
  ),
)

-- Every list of the queries is within the streamables that the user may see.
listed_visible :
    (key : Streamable → ℕ) (p : Streamable → Bool) (current id : ℕ) (t : List (ℕ × Streamable))
    → IsKeyed t
    → ((v : Streamable) → p v ≡ true → is_visible current v ≡ true)
    → meets (is_visible current) id t ≡ false
    → listed id (order_by key (select (λ _. p) t)) ≡ false
listed_visible key p current id t k h hidden = elim (Option-cases (find id t)) [
  | inl e ↦ ground (arith, listed-order_by key id (select (λ _. p) t), listed-select p id t k)
  | inr (v, e) ↦ elim (Bool-cases (p v)) [
    | inl hit ↦ absurd (ground (arith, h v))
    | inr miss ↦ ground (arith, listed-order_by key id (select (λ _. p) t), listed-select p id t k)
  ]
]

-- No list that the user may ask for has the streamable.
pub record IsHidden (current id : ℕ) (d : Database) : Type 0 where
  pub from_newest : listed id (newest_streamables current d) ≡ false
  pub from_popular : listed id (popular_streamables current d) ≡ false
  pub from_liked : (user : ℕ) → listed id (liked_streamables user current d) ≡ false
  pub from_user : (user : ℕ) → listed id (user_streamables user current d) ≡ false
  pub from_private : listed id (private_streamables current d) ≡ false

IsHidden-row :
    (current id : ℕ) (d : Database)
    → IsKeyed d.streamables.rows
    → meets (is_visible current) id d.streamables.rows ≡ false
    → IsHidden current id d
IsHidden-row current id d k h =
    let rows = d.streamables.rows in
    record {
      from_newest =
          listed_visible (λ v. v.created_on) (is_visible current) current id rows k (λ v p. p) h;
      from_popular =
          listed_visible (λ v. length v.likers) (is_visible current) current id rows k (λ v p. p) h;
      from_liked = λ user.
          listed_visible (λ v. v.created_on) (λ v. contains user v.likers && is_visible current v)
            current id rows k (λ v p. ground arith) h;
      from_user = λ user.
          listed_visible (λ v. v.created_on) (λ v. v.user == user && is_visible current v) current
            id rows k (λ v p. ground arith) h;
      from_private =
          listed_visible (λ v. v.created_on)
            (λ v. v.user == current && (not v.is_deleted && v.is_private)) current id rows k
            (λ v p. ground arith) h;
    }

-- Where no two streamables share an id, a streamable whose deletion returned is in no list of
-- anybody: not of the newest, the popular, the liked, the user's or the private ones.
pub deleted-IsHidden :
    (r : Request) (current id : ℕ) (s s' : Backend)
    → IsKeyed s.db.streamables.rows
    → delete_streamable r id s ≡ (ok tt, s')
    → IsHidden current id s'.db
unfolding delete_streamable
deleted-IsHidden r current id s s' k e = elim (Option-cases (find id s.db.streamables.rows)) [
  | inl h ↦ absurd (ground arith)
  | inr (v, h) ↦
      let f : Streamable → Streamable = (λ w. record w { is_deleted = true }) in
      let d : Database = update_streamable id f s.db in
      let same : s'.db ≡ d = ground arith in
      let gone : meets (is_visible current) id d.streamables.rows ≡ false =
        ground (arith, find-update id id f s.db.streamables.rows) in
      rw same (IsHidden-row current id d (update-IsKeyed id f s.db.streamables.rows k) gone)
]

-- Where no two streamables share an id, a streamable that the current user made private is in no
-- list of another user: not of the newest, the popular, the liked, a user's or the private ones.
pub private-IsHidden :
    (r : Request) (owner current id done : ℕ) (s s' : Backend)
    → IsKeyed s.db.streamables.rows
    → current_id r ≡ some owner
    → current ≢ owner
    → make_public_or_private r id true s ≡ (ok done, s')
    → IsHidden current id s'.db
unfolding make_public_or_private
private-IsHidden r owner current id done s s' k o ne e =
    elim (Option-cases (find id s.db.streamables.rows)) [
      | inl h ↦ absurd (ground arith)
      | inr (v, h) ↦
          let f : Streamable → Streamable = (λ w. record w { is_private = true }) in
          let d : Database = update_streamable id f s.db in
          let same : s'.db ≡ d = ground arith in
          let gone : meets (is_visible current) id d.streamables.rows ≡ false =
            ground (arith, find-update id id f s.db.streamables.rows) in
          rw same (IsHidden-row current id d (update-IsKeyed id f s.db.streamables.rows k) gone)
    ]
