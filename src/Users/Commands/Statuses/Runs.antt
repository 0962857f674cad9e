-- ===== src/Users/Commands/Statuses/Runs.antt =====
-- The status of an account over a history of calls.
use graffi_tab_backend.Prelude.{
  ℕ, ◌≡◌, refl, ◌⊎◌, inl, inr, true, some, List, [], ◌∷◌, find, arith, Option-cases,
}
use graffi_tab_backend.Model.Account.{AccountStatus, active, reset_password, User}
use graffi_tab_backend.Backend.{Backend}
use graffi_tab_backend.Users.Invariant.{IsValid}
use graffi_tab_backend.Users.Commands.{
  Outside, Command, creates, creates_external, edits, activates, asks_reset, completes_reset,
  changes_password, fails_login, counts_from_zero, follows, unfollows, run, run_all, run-IsValid,
}
use graffi_tab_backend.Users.Commands.Statuses.{Evolves, may_become}
use graffi_tab_backend.Users.Commands.Statuses.Steps.{
  activate_user-Evolves, complete_password_reset-Evolves, reset_password_of-Evolves,
  change_password-Evolves, update_login_attempts-Evolves, reset_login_attempts-Evolves,
  follow-Evolves, unfollow-Evolves, create_user-Evolves, create_external_user-Evolves,
  edit_user-Evolves,
}

may_become_cases :
    (a b : AccountStatus) → may_become a b ≡ true → (b ≡ a) ⊎ (b ≡ active) ⊎ (b ≡ reset_password)
may_become_cases a b h = ground arith

module _ (o : Outside) (x : ℕ) where
  -- A call leaves every user in the table, and their status moves along `may_become`: to ACTIVE
  -- only from PENDING_ACTIVATION or RESET_PASSWORD, and never to another but RESET_PASSWORD.
  pub run-Evolves : (c : Command) (s : Backend) → IsValid s.db.users → Evolves x s (run o c s)
  unfolding run
  run-Evolves (creates f d now) s v =
      create_user-Evolves x o.encoder o.immediate_activation f d now s
  run-Evolves (creates_external f d id token type now) s v =
      create_external_user-Evolves x o.encoder o.is_valid_token f d id token type now s
  run-Evolves (edits r f) s v = edit_user-Evolves x r f s
  run-Evolves (activates token now) s v = activate_user-Evolves x token now s v.keyed
  run-Evolves (asks_reset email token now) s v = reset_password_of-Evolves x email token now s
  run-Evolves (completes_reset r token new salt) s v =
      complete_password_reset-Evolves x o.encoder r token new salt s v.keyed
  run-Evolves (changes_password r old new salt) s v =
      change_password-Evolves x o.encoder r old new salt s
  run-Evolves (fails_login name) s v = update_login_attempts-Evolves x name s
  run-Evolves (counts_from_zero name) s v = reset_login_attempts-Evolves x name s
  run-Evolves (follows r c id) s v = follow-Evolves x r c id s
  run-Evolves (unfollows r c id) s v = unfollow-Evolves x r id s

  -- From a valid table of users, no sequence of calls removes an account, and the status of an
  -- account after it is the one that it had, or ACTIVE, or RESET_PASSWORD: none becomes
  -- SUSPENDED, and none waits for its activation again.
  pub run_all_statuses :
      (cs : List Command) (s : Backend) {u : User}
      → IsValid s.db.users
      → find x s.db.users.rows ≡ some u
      → (v : User) × (find x (run_all o cs s).db.users.rows ≡ some v)
        × ((v.account_status ≡ u.account_status)
            ⊎ (v.account_status ≡ active)
            ⊎ (v.account_status ≡ reset_password))
  unfolding run_all
  run_all_statuses [] s {u} i e = (u, e, inl refl)
  run_all_statuses (c ∷ cs) s {u} i e = elim (Option-cases (find x (run o c s).db.users.rows)) [
    | inl gone ↦ let step = run-Evolves c s i in absurd (ground arith)
    | inr (w, there) ↦
        let step = run-Evolves c s i in
        let (v, found, status) = run_all_statuses cs (run o c s) (run-IsValid o c s i) there in
        (v, found, ground (arith, may_become_cases u.account_status w.account_status))
  ]
