-- ===== src/Http/Stored.antt =====
-- The security context that a session of the container keeps between requests.
use graffi_tab_backend.Prelude.{ℕ, ◌≡◌, Bool, true, not, ◌||◌, Option, some, is_some, arith}
use graffi_tab_backend.Prelude.Text.{Text}
use graffi_tab_backend.Errors.{ok}
use graffi_tab_backend.Http.{
  Authentication, SecurityContext, Web, Settings, Codec, save_context, load_context,
}

-- Where a context has an authentication and is not the one that the request began with, and where
-- the request has a session or may open one, the context that is saved, that of an anonymous user
-- too, is the one that the next request of the session loads, whatever the settings, and that load
-- changes nothing.
pub load-save_context :
    (settings : Settings) (codec : Codec) (now : ℕ) (requested : Option Text)
    (existed allow committed : Bool) (new_id new_id' : Text) (c : SecurityContext) (w : Web)
    {who : Authentication}
    → c.authentication ≡ some who
    → (is_some w.session || not (existed || not allow || committed)) ≡ true
    → load_context settings codec now new_id' requested
        (save_context existed allow committed true new_id c w)
      ≡ (ok c, save_context existed allow committed true new_id c w)
unfolding load_context save_context
load-save_context settings codec now requested existed allow committed new_id new_id' c w {who} e
      h =
    ground arith
