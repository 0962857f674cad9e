-- ===== src/Activities/Reach.antt =====
-- From a new streamable to the feeds of the followers.
use graffi_tab_backend.Prelude.{
  ℕ, ◌≡◌, ◌≢◌, ◌∙◌, refl, ap, inl, inr, Bool, true, false, not, ◌&&◌, ◌||◌, none, some, List, [],
  ◌∷◌, ◌++◌, ◌==◌, find, find-append, any, Below, arith, Option-cases,
}
use graffi_tab_backend.Prelude.Text.{Text}
use graffi_tab_backend.Prelude.Sorting.{listed}
use graffi_tab_backend.Errors.{ok}
use graffi_tab_backend.Model.{Database}
use graffi_tab_backend.Model.Content.{Streamable, Activity}
use graffi_tab_backend.Model.Content
use graffi_tab_backend.Backend.{Backend, add_activity}
use graffi_tab_backend.Backend.Lookup.{Request, current_id}
use graffi_tab_backend.Users.Following.{Client}
use graffi_tab_backend.Users.Following.Graph.{follows}
use graffi_tab_backend.Streamables.{
  StreamableForm, create_streamable_in_transaction, new_streamable, persist_streamable,
}
use graffi_tab_backend.Jobs.{run_jobs}
use graffi_tab_backend.Jobs.Delivery.{job_adds_activity}
use graffi_tab_backend.Activities.{new_activity, persist_activity, in_feed, user_feed}
use graffi_tab_backend.Activities.Feed.{creates, listed-user_feed}

-- Whether the activity is for the creation of the streamable.
abbrev pub is_creation_of : ℕ → Activity → Bool
is_creation_of id a = elim a.kind [ Content.create_streamable i ↦ id == i | _ ↦ false ]

creates-is_creation_of :
    (id : ℕ) (d : Database) (a : Activity) → is_creation_of id a ≡ false → creates id d a ≡ false
creates-is_creation_of id d a h = kinds a.kind h
  where
    kinds :
        (k : Content.ActivityKind)
        → is_creation_of id (record a { kind = k }) ≡ false
        → creates id d (record a { kind = k }) ≡ false
    kinds (Content.create_streamable i) h = elim (Option-cases (find i d.streamables.rows)) [
      | inl e ↦ ground arith
      | inr (v, e) ↦ ground arith
    ]
    kinds (Content.ActivityKind.follow u) h = refl
    kinds (Content.ActivityKind.like u) h = refl
    kinds (Content.ActivityKind.comment u c) h = refl

any-append :
    (p : ℕ × Activity → Bool) (t u : List (ℕ × Activity)) → any p (t ++ u) ≡ (any p t || any p u)
any-append p [] u = refl
any-append p (x ∷ t) u = ground (arith, any-append p t u)

no_creation :
    (current id : ℕ) (d : Database) (t : List (ℕ × Activity))
    → any (λ x. is_creation_of id x.1) t ≡ false
    → any (λ x. in_feed current d x.1 && creates id d x.1) t ≡ false
no_creation current id d [] h = refl
no_creation current id d ((j, a) ∷ t) h =
    ground (arith, creates-is_creation_of id d a, no_creation current id d t)

-- What a creation leaves: the row, and the activity in the queue.
created :
    (r : Request) (c : Client) (f : StreamableForm) (guid : Text) (a id : ℕ) (s s' : Backend)
    → current_id r ≡ some a
    → create_streamable_in_transaction r c f guid s ≡ (ok id, s')
    → (id ≡ s.db.streamables.next)
      × (find a s.db.users.rows ≢ none)
      × (s' ≡ record s {
        db = persist_streamable (new_streamable f guid a r.now) s.db;
        jobs =
            s.jobs
            ++ add_activity a (Content.create_streamable id) r.now c.ip_address c.user_agent ∷ [];
      })
unfolding create_streamable_in_transaction
created r c f guid a id s s' current e = (ground arith, ground arith, ground arith)

-- A new streamable is private where its form says so.
shown :
    (f : StreamableForm) (guid : Text) (a now : ℕ)
    → not (new_streamable f guid a now).is_private
      ≡ elim f.is_private [ none ↦ true | some p ↦ not p ]
shown f guid a now = elim (Option-cases f.is_private) [
  | inl e ↦ ground arith
  | inr (p, e) ↦ ground arith
]

-- Where nothing was queued, every id of a streamable was handed out already, and no activity is
-- for a streamable to come, a creation that returns, once the job that it queued has run, puts
-- the streamable into the feed of its creator, and, unless its form says that it is private, of everybody who
-- follows the creator; it is in no other feed.
pub create_reaches_feeds :
    (r : Request) (c : Client) (f : StreamableForm) (guid : Text) (a b id : ℕ) (s s' : Backend)
    → current_id r ≡ some a
    → s.jobs ≡ []
    → Below s.db.streamables.next s.db.streamables.rows
    → any (λ x. is_creation_of s.db.streamables.next x.1) s.db.activities.rows ≡ false
    → create_streamable_in_transaction r c f guid s ≡ (ok id, s')
    → listed id (user_feed b (run_jobs s'.jobs s').db) ≡ (
        (follows b a s.db || a == b)
        && (elim f.is_private [ none ↦ true | some p ↦ not p ] || a == b))
unfolding run_jobs
create_reaches_feeds r c f guid a b id s s' current idle below fresh e =
    let (fresh_id, user, left) = created r c f guid a id s s' current e in
    let v : Streamable = new_streamable f guid a r.now in
    let act : Activity =
      new_activity a (Content.create_streamable id) r.now c.ip_address c.user_agent in
    let d : Database = persist_activity act (persist_streamable v s.db) in
    let ran = job_adds_activity a (Content.create_streamable id) r.now c s' (ground arith) in
    let same : (run_jobs s'.jobs s').db ≡ d = ground arith in
    let there : find id d.streamables.rows ≡ some v =
      ground (arith, find-append id s.db.streamables.next v s.db.streamables.rows below) in
    let old : any (λ x. in_feed b d x.1 && creates id d x.1) s.db.activities.rows ≡ false =
      no_creation b id d s.db.activities.rows (rw fresh_id fresh) in
    let seen : not v.is_private ≡ elim f.is_private [ none ↦ true | some p ↦ not p ] =
      shown f guid a r.now in
    let new : (in_feed b d act && creates id d act)
        ≡ ((follows b a s.db || a == b) && (not v.is_private || a == b)) =
      ground arith in
    rw same (
      listed-user_feed b id d
      ∙ any-append (λ x. in_feed b d x.1 && creates id d x.1) s.db.activities.rows
          ((s.db.activities.next, act) ∷ [])
      ∙ ground arith
      ∙ ap (λ z. (follows b a s.db || a == b) && (z || a == b)) seen)
