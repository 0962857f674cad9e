-- ===== src/Activities/Feed.antt =====
-- What the lists of activities have of a streamable that was deleted.
use graffi_tab_backend.Prelude.{
  ℕ, ◌≡◌, ◌∙◌, refl, inl, inr, Bool, true, false, ◌&&◌, none, some, List, [], ◌∷◌, ◌==◌, find,
  find-update, select, any, arith, Option-cases,
}
use graffi_tab_backend.Prelude.Sorting.{order_by, listed, listed-order_by, any-order_by, any-select}
use graffi_tab_backend.Errors.{ok}
use graffi_tab_backend.Model.{Database}
use graffi_tab_backend.Model.Content.{Streamable, Activity}
use graffi_tab_backend.Model.Content
use graffi_tab_backend.Backend.{Backend}
use graffi_tab_backend.Backend.Lookup.{Request}
use graffi_tab_backend.Streamables.{update_streamable}
use graffi_tab_backend.Streamables.Owner.{delete_streamable}
use graffi_tab_backend.Users.Following.Graph.{follows}
use graffi_tab_backend.Activities.{
  created_streamable, created_streamables, in_feed, user_feed, is_followers, followers_activity,
}

-- Whether the activity is the creation of the streamable, whose row is there.
abbrev pub creates : ℕ → Database → Activity → Bool
creates id d a = elim (created_streamable d a) [ none ↦ false | some (j, v) ↦ id == j ]

listed-created_streamables :
    (id : ℕ) (d : Database) (t : List (ℕ × Activity))
    → listed id (created_streamables d t) ≡ any (λ x. creates id d x.1) t
listed-created_streamables id d [] = refl
listed-created_streamables id d ((j, a) ∷ t) = elim (Option-cases (created_streamable d a)) [
  | inl e ↦ ground (arith, listed-created_streamables id d t)
  | inr (x, e) ↦ ground (arith, listed-created_streamables id d t)
]

-- The feed has a streamable exactly when an activity that created it is for the user.
pub listed-user_feed :
    (current id : ℕ) (d : Database)
    → listed id (user_feed current d)
      ≡ any (λ x. in_feed current d x.1 && creates id d x.1) d.activities.rows
listed-user_feed current id d =
    let chosen : List (ℕ × Activity) = select (λ _. in_feed current d) d.activities.rows in
    listed-created_streamables id d (order_by (λ a. a.created_on) chosen)
    ∙ any-order_by (λ a. a.created_on) (λ x. creates id d x.1) chosen
    ∙ any-select (λ _. in_feed current d) (λ x. creates id d x.1) d.activities.rows

all_refused :
    (p : ℕ × Activity → Bool) (t : List (ℕ × Activity))
    → ((x : ℕ × Activity) → p x ≡ false)
    → any p t ≡ false
all_refused p [] h = refl
all_refused p (x ∷ t) h = ground (arith, h x, all_refused p t h)

pub listed-followers_activity :
    (current id : ℕ) (d : Database) (p : ℕ × Activity → Bool)
    → any p (followers_activity current d)
      ≡ any (λ x. is_followers current d x.1 && p x) d.activities.rows
listed-followers_activity current id d p =
    let chosen : List (ℕ × Activity) = select (λ _. is_followers current d) d.activities.rows in
    any-order_by (λ a. a.created_on) p chosen
    ∙ any-select (λ _. is_followers current d) p d.activities.rows

-- Where the row of the streamable is marked as deleted, its creation meets no query.
hidden_creation :
    (current id : ℕ) (d : Database) (a : Activity) {v : Streamable}
    → find id d.streamables.rows ≡ some v
    → v.is_deleted ≡ true
    → ((in_feed current d a && creates id d a) ≡ false)
      × ((is_followers current d a && creates id d a) ≡ false)
hidden_creation current id d a {v} h gone = elim (Option-cases (created_streamable d a)) [
  | inl e ↦ (ground arith, ground arith)
  | inr ((j, w), e) ↦ (ground (arith, row a.kind j w), ground (arith, row a.kind j w))
]
  where
    row :
        (k : Content.ActivityKind) (j : ℕ) (w : Streamable)
        → created_streamable d (record a { kind = k }) ≡ some (j, w)
        → find j d.streamables.rows ≡ some w
    row (Content.create_streamable i) j w e = ground arith
    row (Content.ActivityKind.follow u) j w e = cc
    row (Content.ActivityKind.like u) j w e = cc
    row (Content.ActivityKind.comment u c) j w e = cc

-- A streamable whose deletion returned is in nobody's feed, and no list of what the followed
-- users did has its creation.
pub deleted_leaves_feeds :
    (r : Request) (current id : ℕ) (s s' : Backend)
    → delete_streamable r id s ≡ (ok tt, s')
    → (listed id (user_feed current s'.db) ≡ false)
      × (any (λ x. creates id s'.db x.1) (followers_activity current s'.db) ≡ false)
unfolding delete_streamable
deleted_leaves_feeds r current id s s' e = elim (Option-cases (find id s.db.streamables.rows)) [
  | inl h ↦ absurd (ground arith)
  | inr (v, h) ↦
      let f : Streamable → Streamable = (λ w. record w { is_deleted = true }) in
      let d : Database = update_streamable id f s.db in
      let same : s'.db ≡ d = ground arith in
      let there : find id d.streamables.rows ≡ some (f v) =
        ground (arith, find-update id id f s.db.streamables.rows) in
      rw same (
        listed-user_feed current id d
            ∙ all_refused _ d.activities.rows
                (λ x. (hidden_creation current id d x.1 there refl).0),
        listed-followers_activity current id d (λ x. creates id d x.1)
            ∙ all_refused _ d.activities.rows
                (λ x. (hidden_creation current id d x.1 there refl).1),
      )
]

listed-select_found :
    (q : Activity → Bool) (j : ℕ) (t : List (ℕ × Activity)) {a : Activity}
    → find j t ≡ some a
    → q a ≡ true
    → listed j (select (λ _. q) t) ≡ true
listed-select_found q j [] {a} e h = cc
listed-select_found q j ((i, b) ∷ t) {a} e h = ground (arith, listed-select_found q j t {a = a})

-- The likes of a deleted streamable stay: the owner's deletion returned, and a user whom the
-- current one follows liked the streamable before, then the activity for the like is listed.
pub like_of_deleted_is_listed :
    (r : Request) (current id j : ℕ) (a : Activity) (s s' : Backend)
    → find j s.db.activities.rows ≡ some a
    → a.kind ≡ Content.ActivityKind.like id
    → follows current a.user s.db ≡ true
    → delete_streamable r id s ≡ (ok tt, s')
    → listed j (followers_activity current s'.db) ≡ true
unfolding delete_streamable
like_of_deleted_is_listed r current id j a s s' row kind f e =
    let q : Activity → Bool = is_followers current s'.db in
    let users : s'.db.users ≡ s.db.users = ground arith in
    let activities : s'.db.activities ≡ s.db.activities = ground arith in
    let still : follows current a.user s'.db ≡ true = ground arith in
    let chosen : q a ≡ true = ground arith in
    listed-order_by (λ b. b.created_on) j (select (λ _. q) s'.db.activities.rows)
    ∙ listed-select_found q j s'.db.activities.rows {a = a} (ground arith) chosen
