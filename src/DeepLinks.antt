-- ===== src/DeepLinks.antt =====
-- src/main/resources/public/js/deep-link.js and contact.js: where the landing page goes on.
pub mod Debug
mod Tests
use graffi_tab_backend.Prelude.{Bool, true, false, ◌&&◌, ◌||◌, [], ◌∷◌, ◌++◌, ◌==◌, if◌then◌else◌}
use graffi_tab_backend.Prelude.Text.{Text, codes}

abbrev starts_with : Text → Text → Bool
starts_with [] t = true
starts_with (c ∷ cs) [] = false
starts_with (c ∷ cs) (d ∷ ds) = c == d && starts_with cs ds

-- `t.includes(s)`
abbrev includes : Text → Text → Bool
includes s [] = starts_with s []
includes s (d ∷ ds) = starts_with s (d ∷ ds) || includes s ds

-- `isDebugEnvironment`, with `window.location.host`.
pub is_debug_environment : Text → Bool
is_debug_environment host = includes (codes "dev") host

-- `getStarted`: the new location, from the protocol and the host of the page.
pub get_started : Text → Text → Text
unfolding is_debug_environment
get_started protocol host =
    protocol
    ++ codes "//"
    ++ (if is_debug_environment host then codes "dev." else [])
    ++ codes "graffitab.com"

-- `submitForm`
abbrev pub submit_form : Text
submit_form = codes "mailto:info@graffitab.com"
