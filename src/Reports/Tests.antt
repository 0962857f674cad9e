-- ===== src/Reports/Tests.antt =====
-- The menu, the links and the series of small reports.
use graffi_tab_backend.Prelude.{◌*◌, ◌≡◌, refl, map, none, some, List, [], ◌∷◌}
use graffi_tab_backend.Reports.{Contents, request, nil, cons}
use graffi_tab_backend.Reports.Runs.Registration.{
  registration_global_information, registration_sign_up,
}
use graffi_tab_backend.Reports.Menu.{details_menu}
use graffi_tab_backend.Reports.Menu.Entries.{entries, entry_texts, details_menu-eq-entry_texts}
use graffi_tab_backend.Reports.Unpack.{Plot, number, unpack, find_nb_series}
use graffi_tab_backend.Reports.Unpack.Series.{points_at, points_at-unpack}

abbrev one : Contents
one = cons (request registration_sign_up) nil

details_menu-eq-entry_texts_example :
    details_menu registration_global_information one
    ≡ entry_texts (entries one 0 registration_global_information.path_formatted)
details_menu-eq-entry_texts_example =
    details_menu-eq-entry_texts registration_global_information one

abbrev plots : List Plot
plots = (1, none) ∷ (2, some (5 ∷ 6 ∷ [])) ∷ []

points_at-unpack_example : points_at 1 (unpack plots) ≡ map (λ v. (2 * 1000, number v)) (5 ∷ 6 ∷ [])
unfolding find_nb_series
points_at-unpack_example = points_at-unpack 2 1 (5 ∷ 6 ∷ []) plots refl refl
