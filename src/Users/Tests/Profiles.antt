-- ===== src/Users/Tests/Profiles.antt =====
-- Ann and Cat follow each other, and the site recommends Cat.
use graffi_tab_backend.Prelude.{◌≡◌, refl, true, not, ◌&&◌, [], ◌∷◌, ◌==◌, arith}
use graffi_tab_backend.Prelude.Sorting.{listed}
use graffi_tab_backend.Model.Account.{User}
use graffi_tab_backend.Backend.{Backend}
use graffi_tab_backend.Backend.Lookup.{current_id}
use graffi_tab_backend.Users.Following.{follow}
use graffi_tab_backend.Users.Profiles.{who_to_follow}
use graffi_tab_backend.Users.Profiles.Relations.{follow-who_to_follow}
use graffi_tab_backend.Samples.{start, ann, cat, as_ann, client}

abbrev recommended_cat : User
recommended_cat = record cat { is_recommendation = true; following = 1 ∷ [] }

abbrev connected : Backend
connected = record start {
  db = record (start.db) {
    users = record { rows = (1, ann) ∷ (3, recommended_cat) ∷ []; next = 4 };
  };
}

abbrev followed : Backend
followed = (follow as_ann client 3 connected).1

follow-who_to_follow_example :
    listed 3 (who_to_follow 1 followed.db)
    ≡ (listed 3 (who_to_follow 1 connected.db) && not (3 == 3))
unfolding follow current_id
follow-who_to_follow_example =
    follow-who_to_follow as_ann client 1 3 3 connected followed {id = 3} (ground arith) refl refl
