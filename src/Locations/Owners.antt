-- ===== src/Locations/Owners.antt =====
-- Whose locations a call may change.
use graffi_tab_backend.Prelude.{
  ℕ, ◌≡◌, ◌≢◌, ◌∙◌, refl, ◌⊎◌, inl, inr, none, some, List, [], ◌∷◌, ◌++◌, ◌==◌, find, erase,
  find-append, erase-append, select-update_unseen, select-erase_unseen, select-append, Below, arith,
  Option-cases, if◌then◌else◌,
}
use mathlib.Core.List.{append-nil}
use graffi_tab_backend.Prelude.Text.{Text}
use graffi_tab_backend.Errors.{ok, err, rest, location_not_found, user_not_logged_in}
use graffi_tab_backend.Model.Content.{Location}
use graffi_tab_backend.Backend.{Backend}
use graffi_tab_backend.Backend.Lookup.{Request, current_id}
use graffi_tab_backend.Locations.{
  create_location, delete_location, edit_location, locations_of, location, relocated,
  update_locations,
}

-- The calls of LocationService that change the table.
pub data Call : Type 0 where
  creates : Text → Text → Text → Call
  deletes : ℕ → Call
  edits : ℕ → Text → Text → Text → Call

-- The state after a call, whether it returns or throws.
pub run_call : Request → Call → Backend → Backend
run_call r (creates address latitude longitude) s =
    (create_location r address latitude longitude s).1
run_call r (deletes id) s = (delete_location r id s).1
run_call r (edits id address latitude longitude) s =
    (edit_location r id address latitude longitude s).1

pub run_calls : List (Request × Call) → Backend → Backend
unfolding run_call
run_calls [] s = s
run_calls ((r, c) ∷ cs) s = run_calls cs (run_call r c s)

run_call-locations_of :
    (r : Request) (c : Call) (b : ℕ) (s : Backend)
    → current_id r ≢ some b
    → locations_of b (run_call r c s).db ≡ locations_of b s.db
unfolding run_call create_location delete_location edit_location
run_call-locations_of r (creates x y z) b s other = elim (Option-cases (current_id r)) [
  | inl e ↦ ground arith
  | inr (a, e) ↦ ground (
    arith,
    select-append (λ _ v. v.user == b) s.db.locations.rows
        ((s.db.locations.next, location a x y z r.now) ∷ []),
    append-nil (locations_of b s.db),
  )
]
run_call-locations_of r (deletes id) b s other = elim (Option-cases (find id s.db.locations.rows)) [
  | inl h ↦ ground arith
  | inr (v, h) ↦
      ground (arith, select-erase_unseen (λ _ v. v.user == b) id s.db.locations.rows {v = v} h)
]
run_call-locations_of r (edits id x y z) b s other =
    elim (Option-cases (find id s.db.locations.rows)) [
      | inl h ↦ ground arith
      | inr (v, h) ↦ ground (
        arith,
        select-update_unseen (λ _ v. v.user == b) id (relocated x y z r.now) s.db.locations.rows
            {v = v} h,
      )
    ]

-- None of the calls is on behalf of the user.
abbrev pub IsWithout : ℕ → List (Request × Call) → Type 0
IsWithout b [] = Unit
IsWithout b ((r, c) ∷ cs) = (current_id r ≢ some b) × IsWithout b cs

-- Whatever locations other users, or nobody, create, edit and delete, by whatever ids, the
-- locations of a user stay as they are, in their order.
pub run_calls-locations_of :
    (b : ℕ) (cs : List (Request × Call)) (s : Backend)
    → IsWithout b cs
    → locations_of b (run_calls cs s).db ≡ locations_of b s.db
unfolding run_calls
run_calls-locations_of b [] s h = refl
run_calls-locations_of b ((r, c) ∷ cs) s (p, h) =
    run_calls-locations_of b cs (run_call r c s) h ∙ run_call-locations_of r c b s p

-- A location that was created is the last of its user's, and its deletion by the same user leaves
-- the locations of everybody as they were, where every id was handed out already.
pub delete-create_location :
    (r : Request) (address latitude longitude : Text) (a id : ℕ) (s s' : Backend)
    → Below s.db.locations.next s.db.locations.rows
    → current_id r ≡ some a
    → create_location r address latitude longitude s ≡ (ok id, s')
    → (locations_of a s'.db
        ≡ locations_of a s.db ++ (id, location a address latitude longitude r.now) ∷ [])
      × ((delete_location r id s').0 ≡ ok tt)
      × ((delete_location r id s').1.db.locations.rows ≡ s.db.locations.rows)
unfolding create_location delete_location
delete-create_location r address latitude longitude a id s s' below current e =
    let v : Location = location a address latitude longitude r.now in
    let left : s'.db.locations.rows ≡ s.db.locations.rows ++ (id, v) ∷ [] = ground arith in
    let fresh : id ≡ s.db.locations.next = ground arith in
    let there : find id s'.db.locations.rows ≡ some v =
      ground (arith, find-append id s.db.locations.next v s.db.locations.rows below) in
    (
      ground (
        arith,
        select-append (λ _ w. w.user == a) s.db.locations.rows ((s.db.locations.next, v) ∷ []),
      ),
      ground arith,
      ground (arith, erase-append s.db.locations.next v s.db.locations.rows below),
    )

-- A deletion returns for whoever is logged in, and removes the location for its owner alone; it
-- throws, and changes nothing, where the location is not there or nobody is logged in.
pub delete_location-Outcome :
    (r : Request) (id : ℕ) (s : Backend)
    → ((find id s.db.locations.rows ≡ none)
        × (delete_location r id s ≡ (err (rest location_not_found), s)))
      ⊎ ((find id s.db.locations.rows ≢ none)
          × (current_id r ≡ none)
          × (delete_location r id s ≡ (err (rest user_not_logged_in), s)))
      ⊎ ((v : Location) × (b : ℕ) × (find id s.db.locations.rows ≡ some v)
          × (current_id r ≡ some b)
          × (delete_location r id s ≡ (
            ok tt,
            if v.user == b then record s { db = update_locations (erase id) s.db } else s,
          )))
unfolding delete_location
delete_location-Outcome r id s = elim (Option-cases (find id s.db.locations.rows)) [
  | inl e ↦ inl (e, ground arith)
  | inr (v, e) ↦ elim (Option-cases (current_id r)) [
    | inl c ↦ inr (inl (ground arith, c, ground arith))
    | inr (b, c) ↦ inr (inr (v, b, e, c, ground arith))
  ]
]
