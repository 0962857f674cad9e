-- ===== src/Searches/Tests.antt =====
-- A search for a hashtag.
use graffi_tab_backend.Prelude.{
  ◌≡◌, refl, true, false, none, some, [], ◌∷◌, ◌&&◌, any, find, ◌==◌, arith,
}
use graffi_tab_backend.Prelude.Text.{codes, lower, text_eq, to_lower_case}
use graffi_tab_backend.Prelude.Sorting.{listed}
use graffi_tab_backend.Model.Content.{Streamable}
use graffi_tab_backend.Backend.{Backend}
use graffi_tab_backend.Samples.{start}
use graffi_tab_backend.Streamables.{new_streamable}
use graffi_tab_backend.Streamables.Visibility.{is_visible}
use graffi_tab_backend.Searches.{Collation, anywhere, matches, fits, streamables_for_hashtag}
use graffi_tab_backend.Searches.Plain.{occurs}
use graffi_tab_backend.Searches.Found.{listed-streamables_for_hashtag}

-- Letters that differ in case are the same.
abbrev by_letter : Collation
by_letter = record {
  same_code = λ a b. lower a == lower b;
  same_text = λ s t. text_eq (to_lower_case s) (to_lower_case t);
}

wildcards :
    (matches by_letter (codes "a_c%") (codes "abcd") ≡ true)
    × (matches by_letter (codes "a\\_c%") (codes "abcd") ≡ false)
    × (matches by_letter (codes "a\\_c%") (codes "a_cd") ≡ true)
unfolding matches fits
wildcards = (refl, refl, refl)

abbrev post : Streamable
post =
    record (new_streamable
      (record {
        text = none;
        is_private = none;
        latitude = none;
        longitude = none;
        roll = none;
        yaw = none;
        pitch = none;
      })
      (codes "a") 1 100) { hashtags = codes "StreetArt" ∷ [] }

abbrev tagged : Backend
tagged = record start {
  db = record (start.db) { streamables = record { rows = (10, post) ∷ []; next = 11 } };
}

listed-streamables_for_hashtag_example :
    listed 10
      (streamables_for_hashtag by_letter (anywhere (to_lower_case (codes "Art"))) 1 tagged.db)
    ≡ elim (find 10 tagged.db.streamables.rows) [
      | none ↦ false
      | some v ↦ is_visible 1 v && any (occurs by_letter (to_lower_case (codes "Art"))) v.hashtags
    ]
unfolding to_lower_case
listed-streamables_for_hashtag_example =
    listed-streamables_for_hashtag by_letter to_lower_case (codes "Art") 1 10 tagged.db (refl, tt)
      (ground arith)
