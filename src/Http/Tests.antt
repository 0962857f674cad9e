-- ===== src/Http/Tests.antt =====
-- A session of Ann's that is saved and restored, and one of Cat's that a reset ends.
use graffi_tab_backend.Prelude.{◌≡◌, refl, inr, true, false, none, some, [], ◌∷◌}
use graffi_tab_backend.Prelude.Text.{codes}
use graffi_tab_backend.Errors.{ok, err, rest, user_not_in_expected_state}
use graffi_tab_backend.Model.Account.{active}
use graffi_tab_backend.Backend.{Backend, pure}
use graffi_tab_backend.Backend.Transactions.{in_transaction, in_transaction_with_result}
use graffi_tab_backend.Backend.Lookup.{Request, current_id}
use graffi_tab_backend.Sessions.{save_or_update_session_data}
use graffi_tab_backend.Users.Tokens.{reset_password_of, complete_password_reset, check_token}
use graffi_tab_backend.Http.{Settings, Codec, load_context, new_context}
use graffi_tab_backend.Http.Filters.{do_filter_internal, check_user_status}
use graffi_tab_backend.Http.Restored.{bare, with_debug, IsLoggedIn, save-load_context}
use graffi_tab_backend.Http.Refused.{reset_ends_sessions}
use graffi_tab_backend.Http.Locked.{reset_request_locks}
use graffi_tab_backend.Samples.{encoder, start, ann, as_ann, users-IsKeyed}

abbrev codec : Codec
codec = record { serialize = λ kvs. []; deserialize = λ t. some [] }

abbrev backed_up : Settings
backed_up = record {
  debug_enabled = false;
  session_backups_enabled = true;
  https_only_allowed = true;
}

abbrev saved : Backend
saved = (save_or_update_session_data as_ann (codes "t") [] start).1

save-load_context_example :
    IsLoggedIn 1 (
      load_context
        (with_debug true backed_up)
        codec
        3000
        (codes "n")
        (some (codes "t"))
        (bare saved))
    × (load_context
          (with_debug false backed_up)
          codec
          3000
          (codes "n")
          (some (codes "t"))
          (bare saved)
        ≡ (ok new_context, bare saved))
unfolding save_or_update_session_data in_transaction current_id
save-load_context_example =
    save-load_context codec backed_up as_ann 3000 (codes "t") [] (codes "n") start saved {a = 1}
      {u = ann} refl refl refl refl refl refl refl

abbrev reset : Backend
reset = (complete_password_reset encoder as_ann (codes "r") (codes "new") [] start).1

abbrev by_cat : Request
by_cat = record as_ann { principal = some 3; session_id = some (codes "s") }

reset_ends_sessions_example :
    (do_filter_internal backed_up by_cat (pure tt) reset ≡ (ok none, reset))
    × (load_context backed_up codec 3000 (codes "n") (some (codes "s")) (bare reset)
        ≡ (ok new_context, bare reset))
unfolding complete_password_reset check_token
reset_ends_sessions_example =
    reset_ends_sessions encoder as_ann (codes "r") (codes "new") [] start reset {user = 3} codec
      backed_up by_cat (pure tt) 3000 (codes "n") (codes "s") refl users-IsKeyed refl refl
      (inr refl, tt)

abbrev asked : Backend
asked = (reset_password_of (codes "ann") (codes "k") 3000 start).1

reset_request_locks_example :
    check_user_status as_ann (active ∷ []) asked ≡ (err (rest user_not_in_expected_state), asked)
unfolding reset_password_of in_transaction_with_result in_transaction current_id
reset_request_locks_example =
    reset_request_locks (codes "ann") (codes "k") 3000 as_ann start asked {id = 1} users-IsKeyed
      refl refl
