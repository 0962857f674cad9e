-- ===== src/Http/Filters.antt =====
-- SessionInvalidationFilter, ProtocolCheckingFilter and ClearThreadLocalsFilter of
-- api/authentication, and api/controller/user/UserStatusAspect.java.
use graffi_tab_backend.Prelude.{Bool, true, false, not, ◌||◌, Option, none, some, List, [], ◌∷◌}
use graffi_tab_backend.Prelude.Text.{Text, codes, text_eq, is_empty}
use graffi_tab_backend.Errors.{ok, err, null_pointer, rest, user_not_in_expected_state}
use graffi_tab_backend.Model.Account.{AccountStatus, status_eq}
use graffi_tab_backend.Backend.{Action, pure, throw_if, or_throw, ◌>>=◌}
use graffi_tab_backend.Backend.Lookup.{Request, find_user_by_id, get_current_user}
use graffi_tab_backend.Sessions.{exists, touch_session}
use graffi_tab_backend.Http.{Settings}

-- The rest of the chain, then the `finally` block: its task runs apart, so that a failure of it
-- is not seen.
abbrev finally_touch : {A : Type 0} → Bool → Request → Action A → Action (Option A)
finally_touch backups r chain s =
    let (x, s') = chain s in
    (
      elim x [ ok a ↦ ok (some a) | err e ↦ err e ],
      elim r.session_id [
        | none ↦ s'
        | some id ↦ elim backups [ true ↦ (touch_session r id s').1 | false ↦ s' ]
      ],
    )

-- `SessionInvalidationFilter.doFilterInternal`: none where the entry point answers that the user
-- is not authenticated.
unfoldable pub do_filter_internal : {A : Type 0} → Settings → Request → Action A → Action (Option A)
do_filter_internal settings r chain = do
  valid ← elim r.session_id [
    | none ↦ pure true
    | some id ↦ elim settings.session_backups_enabled [ true ↦ exists id | false ↦ pure true ]
  ]
  elim valid [ true ↦ finally_touch settings.session_backups_enabled r chain | false ↦ pure none ]

abbrev ends_with : Text → Text → Bool
ends_with suffix [] = is_empty suffix
ends_with suffix (c ∷ t) = text_eq suffix (c ∷ t) || ends_with suffix t

-- `getProtocolForRequest`: the header `X-Forwarded-Proto` before the scheme.
abbrev pub get_protocol_for_request : Option Text → Text → Text
get_protocol_for_request none scheme = scheme
get_protocol_for_request (some protocol) scheme = protocol

-- `ProtocolCheckingFilter.doFilterInternal`: whether the chain runs.
unfoldable pub is_protocol_allowed : Settings → Option Text → Text → Text → Bool
is_protocol_allowed settings forwarded scheme request_uri =
    not settings.https_only_allowed
    || text_eq (get_protocol_for_request forwarded scheme) (codes "https")
    || ends_with (codes "status") request_uri

-- `ClearThreadLocalsFilter.doFilter`: what the thread keeps after a request.
abbrev pub clear_thread_locals : Request → Request
clear_thread_locals r = record r { run_as = none; cached = none }

abbrev pub has_status : AccountStatus → List AccountStatus → Bool
has_status x [] = false
has_status x (y ∷ ys) = status_eq y x || has_status x ys

-- `UserStatusAspect.checkUserStatus`: the user's row as it is now, as for a request that has not
-- loaded its user before.
unfoldable pub check_user_status : Request → List AccountStatus → Action (Unit {0})
check_user_status r required = do
  current ← get_current_user r
  found ← find_user_by_id current
  user ← or_throw found null_pointer
  throw_if (not (has_status user.account_status required)) (rest user_not_in_expected_state)
