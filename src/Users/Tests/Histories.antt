-- ===== src/Users/Tests/Histories.antt =====
-- A history of calls on the test accounts.
use graffi_tab_backend.Prelude.{◌≡◌, refl, ◌⊎◌, true, false, some, List, [], ◌∷◌, find}
use graffi_tab_backend.Prelude.Text.{codes}
use graffi_tab_backend.Model.Account.{User, active, reset_password}
use graffi_tab_backend.Users.Commands.{
  Outside, Command, activates, asks_reset, fails_login, run, run_all, run_all-IsValid,
}
use graffi_tab_backend.Users.Commands
use graffi_tab_backend.Users.Commands.Statuses.Runs.{run_all_statuses}
use graffi_tab_backend.Users.Invariant.{IsValid}
use graffi_tab_backend.Samples.{encoder, bob, start, as_ann, client, start-IsValid}

abbrev outside : Outside
outside = record { encoder = encoder; is_valid_token = λ _ _. true; immediate_activation = false }

-- Bob activates, Ann follows Cat and forgets her password.
abbrev history : List Command
history =
    activates (codes "t") 3000
    ∷ Commands.follows as_ann client 3
    ∷ fails_login (codes "ann")
    ∷ asks_reset (codes "ann") (codes "q") 4000
    ∷ []

run_all-IsValid_example : IsValid (run_all outside history start).db.users
run_all-IsValid_example = run_all-IsValid outside history start start-IsValid

run_all_statuses_example :
    (v : User) × (find 2 (run_all outside history start).db.users.rows ≡ some v)
    × ((v.account_status ≡ bob.account_status)
        ⊎ (v.account_status ≡ active)
        ⊎ (v.account_status ≡ reset_password))
run_all_statuses_example = run_all_statuses outside 2 history start {u = bob} start-IsValid refl
