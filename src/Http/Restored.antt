-- ===== src/Http/Restored.antt =====
-- A session that the table keeps, restored for a request without a session in the container.
use graffi_tab_backend.Prelude.{
  ℕ, ◌≡◌, ◌∙◌, refl, sym, ap, Bool, true, false, none, some, List, [], ◌∷◌, ◌++◌, find, filter,
  arith,
}
use graffi_tab_backend.Prelude.Text.{Text, text_eq, text_eq_refl}
use graffi_tab_backend.Errors.{Result, ok}
use graffi_tab_backend.Model.{UserSession}
use graffi_tab_backend.Model.Account.{User}
use graffi_tab_backend.Backend.{Backend}
use graffi_tab_backend.Backend.Transactions.{in_transaction}
use graffi_tab_backend.Backend.Lookup.{Request, current_id}
use graffi_tab_backend.Sessions.{exists, save_or_update_session_data, set_sessions}
use graffi_tab_backend.Http.{
  SecurityContext, get_session, Settings, Codec, Web, load_context, new_context, restore_from_db,
  restore_http_session, user_of, HttpSession, with_attributes, seen_as,
}

-- The rows of a session.
abbrev pub rows_with : Text → List UserSession → List UserSession
rows_with id = filter (λ x. text_eq x.session_id id)

rows_with-++ :
    (id : Text) (xs : List UserSession) (x : UserSession)
    → rows_with id (xs ++ x ∷ []) ≡ (rows_with id xs ++ rows_with id (x ∷ []))
rows_with-++ id [] x = refl
rows_with-++ id (y ∷ xs) x = ground (arith, rows_with-++ id xs x)

abbrev row_of : Text → Text → ℕ → ℕ → UserSession
row_of id content now a = record { session_id = id; content = content; created_on = now; user = a }

saved :
    (r : Request) (id content : Text) (s : Backend) {a : ℕ}
    → current_id r ≡ some a
    → rows_with id s.db.sessions ≡ []
    → save_or_update_session_data r id content s
      ≡ (ok tt, record s { db = set_sessions (λ xs. xs ++ row_of id content r.now a ∷ []) (s.db) })
unfolding save_or_update_session_data in_transaction
saved r id content s {a} c e = ground arith

exists_row :
    (id : Text) (s : Backend) {x : UserSession}
    → rows_with id s.db.sessions ≡ x ∷ []
    → exists id s ≡ (ok true, s)
unfolding exists
exists_row id s e = ground arith

-- A request without a session in the container, for which the container would choose `new_id`.
abbrev pub bare : Backend → Web
bare s = record { session = none; run_as = none; backend = s }

-- The session that the restore opens.
abbrev opened : Codec → Text → Text → HttpSession
opened codec new_id content =
    with_attributes (codec.deserialize content)
      (record { id = new_id; context = none; attributes = []; max_inactive_interval = none })

-- The request after a restore from the row.
abbrev reopened : Codec → ℕ → Text → UserSession → Backend → Web
reopened codec now new_id row s = record {
  session =
      some (record (opened codec new_id row.content) { max_inactive_interval = some 604_800 });
  run_as = some row.user;
  backend = record s {
    db =
        set_sessions
          (λ xs.
            xs
            ++ row_of new_id (codec.serialize (opened codec new_id row.content).attributes) now
                row.user
              ∷ [])
          (s.db);
  };
}

restore_http_session_lem :
    (codec : Codec) (now : ℕ) (new_id : Text) (row : UserSession) (s : Backend)
    → rows_with new_id s.db.sessions ≡ []
    → restore_http_session codec now new_id row
        (record { session = none; run_as = some row.user; backend = s })
      ≡ (ok tt, reopened codec now new_id row s)
unfolding restore_http_session current_id
restore_http_session_lem codec now new_id row s new =
    let w : Web = record {
      session = some (opened codec new_id row.content);
      run_as = some row.user;
      backend = s;
    } in
    let store =
      saved (seen_as now w) new_id (codec.serialize (opened codec new_id row.content).attributes) s
        {a = row.user} refl new in
    ground (arith, store)

-- The same settings with the debug level of the log on, or off.
abbrev pub with_debug : Bool → Settings → Settings
with_debug on settings = record settings { debug_enabled = on }

-- A web request in which the user is logged in, in a session that the table has.
abbrev pub IsLoggedIn : ℕ → Result SecurityContext × Web → Type 0
IsLoggedIn a (c, w) =
    (c ≡ ok (record { authentication = some (user_of a) }))
    × (w.run_as ≡ some a)
    × ((exists (get_session [] w).id w.backend).0 ≡ ok true)

load_row :
    (codec : Codec) (settings : Settings) (now : ℕ) (new_id sid : Text) (s : Backend)
    {x : UserSession} {u : User}
    → settings.session_backups_enabled ≡ true
    → rows_with sid s.db.sessions ≡ x ∷ []
    → rows_with new_id s.db.sessions ≡ []
    → find x.user s.db.users.rows ≡ some u
    → load_context (with_debug true settings) codec now new_id (some sid) (bare s)
      ≡ (ok (record { authentication = some (user_of x.user) }), reopened codec now new_id x s)
unfolding load_context restore_from_db
load_row codec settings now new_id sid s {x} {u} on e new h =
    let step = restore_http_session_lem codec now new_id x s new in ground (arith, step)

reopened_exists :
    (codec : Codec) (now : ℕ) (new_id : Text) (x : UserSession) (s : Backend)
    → rows_with new_id s.db.sessions ≡ []
    → (exists new_id (reopened codec now new_id x s).backend).0 ≡ ok true
reopened_exists codec now new_id x s new =
    let row =
      row_of new_id (codec.serialize (opened codec new_id x.content).attributes) now x.user in
    let w = reopened codec now new_id x s in
    ap (λ p. p.0)
      (exists_row new_id w.backend {x = row}
        (rows_with-++ new_id s.db.sessions row ∙ ground (arith, new, text_eq_refl new_id)))

abbrev after_save : Request → Text → Text → ℕ → Backend → Backend
after_save r id content a s = record s {
  db = set_sessions (λ xs. xs ++ row_of id content r.now a ∷ []) (s.db);
}

load_saved :
    (codec : Codec) (settings : Settings) (r : Request) (now : ℕ) (sid content new_id : Text)
    (s : Backend) {a : ℕ} {u : User}
    → settings.session_backups_enabled ≡ true
    → find a s.db.users.rows ≡ some u
    → rows_with sid s.db.sessions ≡ []
    → text_eq sid new_id ≡ false
    → rows_with new_id s.db.sessions ≡ []
    → IsLoggedIn a (
        load_context
          (with_debug true settings)
          codec
          now
          new_id
          (some sid)
          (bare (after_save r sid content a s)))
load_saved codec settings r now sid content new_id s {a} {u} on h new d e =
    let x = row_of sid content r.now a in
    let s1 = after_save r sid content a s in
    let here : rows_with sid s1.db.sessions ≡ x ∷ [] =
      rows_with-++ sid s.db.sessions x ∙ ground (arith, new, text_eq_refl sid) in
    let free : rows_with new_id s1.db.sessions ≡ [] =
      rows_with-++ new_id s.db.sessions x ∙ ground (arith, e, d) in
    rw (load_row codec settings now new_id sid s1 {x = x} {u = u} on here free h)
      (refl, refl, reopened_exists codec now new_id x s1 free)

-- Where session backups are enabled, the current user has an account, and neither the session nor
-- the other id that the container will choose has a row yet, a save of the session that returns is
-- what restores it: with the debug level of the log on, a later request that names this session, to
-- a container that has no session for it, runs as the same user, in a session that has a row of its
-- own. With the debug level off, the same request is not authenticated and nothing changes.
pub save-load_context :
    (codec : Codec) (settings : Settings) (r : Request) (now : ℕ) (sid content new_id : Text)
    (s s' : Backend) {a : ℕ} {u : User}
    → settings.session_backups_enabled ≡ true
    → current_id r ≡ some a
    → find a s.db.users.rows ≡ some u
    → rows_with sid s.db.sessions ≡ []
    → rows_with new_id s.db.sessions ≡ []
    → text_eq sid new_id ≡ false
    → save_or_update_session_data r sid content s ≡ (ok tt, s')
    → IsLoggedIn a (load_context (with_debug true settings) codec now new_id (some sid) (bare s'))
      × (load_context (with_debug false settings) codec now new_id (some sid) (bare s')
          ≡ (ok new_context, bare s'))
unfolding load_context
save-load_context codec settings r now sid content new_id s s' {a} {u} on c h new e d w =
    let q : s' ≡ after_save r sid content a s =
      ap (λ p. p.1) (sym w ∙ saved r sid content s c new) in
    (rw q (load_saved codec settings r now sid content new_id s on h new d e), refl)
