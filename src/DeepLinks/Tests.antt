-- ===== src/DeepLinks/Tests.antt =====
-- Hosts of the landing page.
use graffi_tab_backend.Prelude.{◌≡◌, refl}
use graffi_tab_backend.Prelude.Text.{codes}
use graffi_tab_backend.DeepLinks.{get_started}

live : get_started (codes "http:") (codes "graffitab.com") ≡ codes "http://graffitab.com"
unfolding get_started
live = refl
