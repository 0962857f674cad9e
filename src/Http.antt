-- ===== src/Http.antt =====
-- api/authentication/PersistedSessionSecurityContext.java, with `restore...FromDb` of
-- service/user/UserSessionService.java.
pub mod Filters
pub mod Stored
pub mod Locked
pub mod Restored
pub mod Refused
mod Tests
use graffi_tab_backend.Prelude.{
  ℕ, Bool, true, false, not, ◌&&◌, ◌||◌, Option, none, some, List, [], ◌∷◌, is_some, find,
  if◌then◌else◌,
}
use graffi_tab_backend.Prelude.Text.{Text, text_eq}
use graffi_tab_backend.Errors.{Result, ok, err, null_pointer}
use graffi_tab_backend.Model.{UserSession}
use graffi_tab_backend.Backend.{Backend, pure, ◌>>=◌}
use graffi_tab_backend.Backend.Lookup.{Request}
use graffi_tab_backend.Sessions.{find_by_session_id, exists, save_or_update_session_data}

-- Who a security context says is logged in.
pub data Authentication : Type 0 where
  anonymous : Authentication
  user_of : ℕ → Authentication

pub record SecurityContext : Type 0 where
  pub authentication : Option Authentication

-- What `getAttribute(springSecurityContextKey)` may give, other than null.
pub data AttributeValue : Type 0 where
  security_context : SecurityContext → AttributeValue
  other_object : AttributeValue

-- The session of the servlet container, with the attributes under the other keys.
pub record HttpSession : Type 0 where
  pub id : Text
  pub context : Option AttributeValue
  pub attributes : List (Text × Text)
  pub max_inactive_interval : Option ℕ

-- A request in its thread: the session that `getSession(false)` gives, and `RunAsUser`.
pub record Web : Type 0 where
  pub session : Option HttpSession
  pub run_as : Option ℕ
  pub backend : Backend

-- `getSession()`, where the container would choose the id `new_id`.
abbrev pub get_session : Text → Web → HttpSession
get_session new_id w = elim w.session [
  | some h ↦ h
  | none ↦ record { id = new_id; context = none; attributes = []; max_inactive_interval = none }
]

abbrev pub set_attribute : Text → Text → List (Text × Text) → List (Text × Text)
set_attribute k v [] = (k, v) ∷ []
set_attribute k v ((j, x) ∷ t) = if text_eq k j then (k, v) ∷ t else ((j, x) ∷ set_attribute k v t)

abbrev pub set_attributes : List (Text × Text) → List (Text × Text) → List (Text × Text)
set_attributes [] t = t
set_attributes ((k, v) ∷ kvs) t = set_attributes kvs (set_attribute k v t)

-- `SerializationUtils`; null for what was null.
pub record Codec : Type 0 where
  pub serialize : List (Text × Text) → Text
  pub deserialize : Text → Option (List (Text × Text))

-- The request that the services see of `w`.
abbrev pub seen_as : ℕ → Web → Request
seen_as now w = record {
  run_as = w.run_as;
  cached = none;
  principal = none;
  session_id = elim w.session [ none ↦ none | some h ↦ some h.id ];
  now = now;
}

abbrev pub with_attributes : Option (List (Text × Text)) → HttpSession → HttpSession
with_attributes stored h = record h {
  attributes = elim stored [ none ↦ h.attributes | some kvs ↦ set_attributes kvs h.attributes ];
}

-- `restoreHttpSession`
unfoldable pub restore_http_session : Codec → ℕ → Text → UserSession → Web → Result (Unit {0}) × Web
restore_http_session codec now new_id row w =
    let restored : HttpSession =
      with_attributes (codec.deserialize row.content) (get_session new_id w) in
    let opened : Web = record w { session = some restored } in
    let (r, b) : Result (Unit {0}) × Backend =
      (do
        found ← find_by_session_id restored.id
        elim found [
          | some _ ↦ pure tt
          | none ↦
              save_or_update_session_data (seen_as now opened) restored.id
                (codec.serialize restored.attributes)
        ])
        w.backend in
    elim r [
      | err e ↦ (err e, record opened { backend = b })
      | ok _ ↦ (
        ok tt,
        record opened {
          session = some (record restored { max_inactive_interval = some 604_800 });
          backend = b;
        },
      )
    ]

-- The body of `restoreSecurityContextAndHttpSessionFromDb`.
abbrev restored : Codec → ℕ → Text → Text → Web → Result (Option SecurityContext) × Web
restored codec now new_id requested w = elim (find_by_session_id requested w.backend).0 [
  | err e ↦ (err e, w)
  | ok none ↦ (ok none, w)
  | ok (some row) ↦ elim (find row.user w.backend.db.users.rows) [
    | none ↦ (err null_pointer, w)
    | some u ↦
        let (r, w') =
          restore_http_session codec now new_id row (record w { run_as = some row.user }) in
        (
          elim r [
            | err e ↦ err e
            | ok _ ↦ ok (some (record { authentication = some (user_of row.user) }))
          ],
          w',
        )
  ]
]

-- `restoreSecurityContextAndHttpSessionFromDb`, a `@Transactional` method.
unfoldable pub restore_from_db :
    Codec → ℕ → Text → Text → Web → Result (Option SecurityContext) × Web
restore_from_db codec now new_id requested w =
    let (r, w') = restored codec now new_id requested w in
    elim r [
      | ok c ↦ (ok c, w')
      | err e ↦ (err e, record w' { backend = record (w'.backend) { db = w.backend.db } })
    ]

-- `readSecurityContextFromSession`
abbrev pub read_security_context_from_session : Option HttpSession → Option SecurityContext
read_security_context_from_session none = none
read_security_context_from_session (some h) = elim h.context [
  | some (security_context c) ↦ some c
  | _ ↦ none
]

abbrev pub new_context : SecurityContext
new_context = record { authentication = none }

-- The settings that the filters read: the debug level of the logger, `session.backups.enabled`
-- and `protocol.httpsOnlyAllowed`.
pub record Settings : Type 0 where
  pub debug_enabled : Bool
  pub session_backups_enabled : Bool
  pub https_only_allowed : Bool

-- `loadContext`; the test of `requestedSessionId` stands inside that of the debug level.
unfoldable pub load_context :
    Settings → Codec → ℕ → Text → Option Text → Web → Result SecurityContext × Web
load_context settings codec now new_id requested w =
    elim (read_security_context_from_session w.session) [
      | some c ↦ (ok c, w)
      | none ↦
          let (r, w') : Result (Option SecurityContext) × Web = elim requested [
            | none ↦ (ok none, w)
            | some id ↦ elim (settings.debug_enabled && settings.session_backups_enabled) [
              | true ↦ restore_from_db codec now new_id id w
              | false ↦ (ok none, w)
            ]
          ] in
          elim r [ err e ↦ (err e, w') | ok none ↦ (ok new_context, w') | ok (some c) ↦ (ok c, w') ]
    ]

-- `containsContext`
unfoldable pub contains_context : Settings → Option Text → Web → Result Bool
contains_context settings requested w = elim w.session [
  | none ↦ ok false
  | some h ↦ elim (is_some h.context) [
    | true ↦ ok true
    | false ↦ elim requested [
      | none ↦ ok false
      | some id ↦ elim settings.session_backups_enabled [
        | true ↦ (exists id w.backend).0
        | false ↦ ok false
      ]
    ]
  ]
]

-- `createNewSessionIfAllowed` for a context with an authentication, which is not the default one:
-- `getSession(true)` fails where the response is committed.
abbrev create_new_session_if_allowed : Bool → Bool → Bool → Text → Web → Option HttpSession
create_new_session_if_allowed existed allow_session_creation committed new_id w =
    if existed || not allow_session_creation || committed then none else some (get_session new_id w)

-- `saveContext`, where `changed` is `contextChanged(context)`.
unfoldable pub save_context : Bool → Bool → Bool → Bool → Text → SecurityContext → Web → Web
save_context existed allow_session_creation committed changed new_id c w = elim c.authentication [
  | none ↦ record w {
    session = elim w.session [ none ↦ none | some h ↦ some (record h { context = none }) ];
  }
  | some _ ↦
      let session : Option HttpSession = elim w.session [
        | some h ↦ some h
        | none ↦ create_new_session_if_allowed existed allow_session_creation committed new_id w
      ] in
      elim session [
        | none ↦ w
        | some h ↦ elim (changed || not (is_some h.context)) [
          | true ↦ record w { session = some (record h { context = some (security_context c) }) }
          | false ↦ record w { session = some h }
        ]
      ]
]
