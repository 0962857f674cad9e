-- ===== src/Http/Refused.antt =====
-- The sessions of a user after a password reset, as the filters see them.
use graffi_tab_backend.Prelude.{
  ℕ, ◌≡◌, ◌∙◌, refl, ap, ◌⊎◌, inl, inr, true, false, none, some, List, [], ◌∷◌, IsKeyed, All, arith,
  Bool-cases, ◌&&◌,
}
use graffi_tab_backend.Prelude.Text.{Text, text_eq}
use graffi_tab_backend.Errors.{ok}
use graffi_tab_backend.Model.{UserSession}
use graffi_tab_backend.Backend.{Backend, Action}
use graffi_tab_backend.Backend.Lookup.{Request}
use graffi_tab_backend.Sessions.{exists, logged_out}
use graffi_tab_backend.Users.Registration.{PasswordEncoder}
use graffi_tab_backend.Users.Tokens.{complete_password_reset}
use graffi_tab_backend.Users.Tokens.Lifecycle.{complete_password_reset_sound}
use graffi_tab_backend.Http.{Settings, Codec, load_context, new_context, restore_from_db}
use graffi_tab_backend.Http.Filters.{do_filter_internal}
use graffi_tab_backend.Http.Restored.{rows_with, bare}

-- Every row of the session is of the user.
abbrev pub IsOwn : ℕ → Text → List UserSession → Type 0
IsOwn user id = All (λ x. (text_eq x.session_id id ≡ false) ⊎ (x.user ≡ user))

rows_with-logged_out :
    (user : ℕ) (id : Text) (xs : List UserSession)
    → IsOwn user id xs
    → rows_with id (logged_out user none xs) ≡ []
rows_with-logged_out user id [] h = refl
rows_with-logged_out user id (x ∷ xs) (inl other, h) =
    ground (arith, other, rows_with-logged_out user id xs h)
rows_with-logged_out user id (x ∷ xs) (inr own, h) =
    ground (arith, own, rows_with-logged_out user id xs h)

refused :
    {A : Type 0} (settings : Settings) (r : Request) (chain : Action A) (id : Text) (s : Backend)
    → settings.session_backups_enabled ≡ true
    → r.session_id ≡ some id
    → rows_with id s.db.sessions ≡ []
    → do_filter_internal settings r chain s ≡ (ok none, s)
unfolding do_filter_internal exists
refused settings r chain id s on h e = ground arith

unrestored :
    (codec : Codec) (settings : Settings) (now : ℕ) (new_id id : Text) (s : Backend)
    → rows_with id s.db.sessions ≡ []
    → load_context settings codec now new_id (some id) (bare s) ≡ (ok new_context, bare s)
unfolding load_context restore_from_db
unrestored codec settings now new_id id s e =
    elim (Bool-cases (settings.debug_enabled && settings.session_backups_enabled)) [
      | inl on ↦ ground arith
      | inr off ↦ ground arith
    ]

-- Where session backups are enabled, no two users share an id, and every row of a session is of
-- the user whose password a completed reset changes, a later request in that session is answered
-- as not authenticated, nothing else of it runs, and the session is not restored for a container
-- without it.
pub reset_ends_sessions :
    {A : Type 0} (encoder : PasswordEncoder) (r : Request) (token new_password salt : Text)
    (s s' : Backend) {user : ℕ} (codec : Codec) (settings : Settings) (r' : Request)
    (chain : Action A) (now : ℕ) (new_id id : Text)
    → settings.session_backups_enabled ≡ true
    → IsKeyed s.db.users.rows
    → complete_password_reset encoder r token new_password salt s ≡ (ok user, s')
    → r'.session_id ≡ some id
    → IsOwn user id s.db.sessions
    → (do_filter_internal settings r' chain s' ≡ (ok none, s'))
      × (load_context settings codec now new_id (some id) (bare s') ≡ (ok new_context, bare s'))
reset_ends_sessions encoder r token new_password salt s s' {user} codec settings r' chain now new_id
      id on k e h own =
    let sound =
      complete_password_reset_sound encoder r token new_password salt s s' {id = user} k e in
    let gone : rows_with id s'.db.sessions ≡ [] =
      ap (rows_with id) sound.2 ∙ rows_with-logged_out user id s.db.sessions own in
    (refused settings r' chain id s' on h gone, unrestored codec settings now new_id id s' gone)
