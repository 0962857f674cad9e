-- ===== src/Locations/Tests.antt =====
-- Ann has a place, and Bob asks for it.
use graffi_tab_backend.Prelude.{
  ℕ, ◌≡◌, ◌≢◌, ◌⊎◌, none, some, List, [], ◌∷◌, ◌==◌, find, erase, if◌then◌else◌, arith,
}
use graffi_tab_backend.Prelude.Text.{codes}
use graffi_tab_backend.Errors.{ok, err, rest, location_not_found, user_not_logged_in}
use graffi_tab_backend.Model.Content.{Location}
use graffi_tab_backend.Backend.{Backend}
use graffi_tab_backend.Backend.Lookup.{Request, current_id}
use graffi_tab_backend.Samples.{start, as_ann}
use graffi_tab_backend.Locations.{create_location, delete_location, locations_of, update_locations}
use graffi_tab_backend.Locations.Owners.{
  Call, creates, deletes, edits, run_calls, run_calls-locations_of, delete_location-Outcome,
}

abbrev as_bob : Request
as_bob = record as_ann { principal = some 2 }

abbrev placed : Backend
placed = (create_location as_ann (codes "home") (codes "1") (codes "2") start).1

abbrev calls : List (Request × Call)
calls =
    (as_bob, deletes 1)
    ∷ (as_bob, edits 1 (codes "x") (codes "3") (codes "4"))
    ∷ (as_bob, creates (codes "y") (codes "5") (codes "6"))
    ∷ []

run_calls-locations_of_example :
    locations_of 1 (run_calls calls placed).db ≡ locations_of 1 placed.db
unfolding current_id
run_calls-locations_of_example =
    run_calls-locations_of 1 calls placed (ground arith, (ground arith, (ground arith, tt)))

delete_location-Outcome_example :
    ((find 1 placed.db.locations.rows ≡ none)
      × (delete_location as_bob 1 placed ≡ (err (rest location_not_found), placed)))
    ⊎ ((find 1 placed.db.locations.rows ≢ none)
        × (current_id as_bob ≡ none)
        × (delete_location as_bob 1 placed ≡ (err (rest user_not_logged_in), placed)))
    ⊎ ((v : Location) × (b : ℕ) × (find 1 placed.db.locations.rows ≡ some v)
        × (current_id as_bob ≡ some b)
        × (delete_location as_bob 1 placed ≡ (
          ok tt,
          if v.user == b
              then record placed { db = update_locations (erase 1) placed.db }
              else placed,
        )))
delete_location-Outcome_example = delete_location-Outcome as_bob 1 placed
