-- ===== src/Locations.antt =====
-- service/user/LocationService.java: the places that a user keeps.
pub mod Owners
mod Tests
use graffi_tab_backend.Prelude.{
  ℕ, ◌+◌, not, Option, none, some, List, [], ◌∷◌, ◌++◌, ◌==◌, find, update, erase, select,
}
use graffi_tab_backend.Prelude.Text.{Text}
use graffi_tab_backend.Errors.{location_not_found, user_not_owner, rest}
use graffi_tab_backend.Model.{Database}
use graffi_tab_backend.Model.Content.{Location}
use graffi_tab_backend.Backend.{Action, pure, throw_if, or_throw, gets, modify, when, ◌>>=◌, ◌>>◌}
use graffi_tab_backend.Backend.Transactions.{in_transaction}
use graffi_tab_backend.Backend.Lookup.{Request, get_current_user}
use graffi_tab_backend.Paging.{PagedList, get_items}

-- `findLocationById`
abbrev pub find_location_by_id : ℕ → Action (Option Location)
find_location_by_id id = gets (λ d. find id d.locations.rows)

abbrev pub update_locations : (List (ℕ × Location) → List (ℕ × Location)) → Database → Database
update_locations f d = record d { locations = record (d.locations) { rows = f d.locations.rows } }

-- `Location.location(address, latitude, longitude)`, in the list of its user.
abbrev pub location : ℕ → Text → Text → Text → ℕ → Location
location user address latitude longitude now = record {
  user = user;
  address = address;
  latitude = latitude;
  longitude = longitude;
  created_on = now;
  updated_on = none;
}

abbrev pub persist_location : Location → Database → Database
persist_location v d = record d {
  locations = record {
    rows = d.locations.rows ++ (d.locations.next, v) ∷ [];
    next = d.locations.next + 1;
  };
}

-- `createLocation`; its result is the id of the new row.
unfoldable pub create_location : Request → Text → Text → Text → Action ℕ
unfolding in_transaction
create_location r address latitude longitude = in_transaction do
  current ← get_current_user r
  id ← gets (λ d. d.locations.next)
  modify (persist_location (location current address latitude longitude r.now))
  pure id

-- The location, or the exception for one that is not there.
abbrev pub existing_location : ℕ → Action Location
existing_location id = do found ← find_location_by_id id; or_throw found (rest location_not_found)

-- `deleteLocation`: the current user's list loses the location if it has it, and the orphan goes.
unfoldable pub delete_location : Request → ℕ → Action (Unit {0})
unfolding in_transaction
delete_location r id = in_transaction do
  to_delete ← existing_location id
  current ← get_current_user r
  when (to_delete.user == current) (modify (update_locations (erase id)))

-- What an edit sets.
abbrev pub relocated : Text → Text → Text → ℕ → Location → Location
relocated address latitude longitude now v = record v {
  address = address;
  latitude = latitude;
  longitude = longitude;
  updated_on = some now;
}

-- `editLocation`
unfoldable pub edit_location : Request → ℕ → Text → Text → Text → Action ℕ
unfolding in_transaction
edit_location r id address latitude longitude = in_transaction do
  to_edit ← existing_location id
  current ← get_current_user r
  throw_if (not (to_edit.user == current)) (rest user_not_owner)
  modify (update_locations (update id (relocated address latitude longitude r.now)))
  pure id

-- `Location.getLocations`
abbrev pub locations_of : ℕ → Database → List (ℕ × Location)
locations_of user d = select (λ _ v. v.user == user) d.locations.rows

-- `getLocationsResult`, for Hibernate's pages
unfoldable pub get_locations :
    (ℕ → ℕ → List (ℕ × Location) → List (ℕ × Location))
    → Request
    → Option ℕ
    → Option ℕ
    → Action (PagedList (ℕ × Location))
unfolding in_transaction
get_locations query_list r offset limit = in_transaction do
  current ← get_current_user r
  rows ← gets (locations_of current)
  pure (get_items query_list rows offset limit)
