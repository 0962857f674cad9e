-- ===== src/Users/Tests.antt =====
-- The operations of UserService on the sample accounts.
mod Tokens
mod Logins
mod Histories
mod Links
mod Races
mod Graphs
mod Images
mod Profiles
use graffi_tab_backend.Prelude.{◌≡◌, refl, ◌&&◌, ◌||◌, [], ◌∷◌, ◌==◌, update}
use graffi_tab_backend.Errors.{ok}
use graffi_tab_backend.Model.Account.{User}
use graffi_tab_backend.Backend.{Backend}
use graffi_tab_backend.Backend.Lookup.{current_id}
use graffi_tab_backend.Users.Following.{follow}
use graffi_tab_backend.Users.Following.Graph.{follows, follow_edges}
use graffi_tab_backend.Users.Commands.{Command}
use graffi_tab_backend.Users.Commands
use graffi_tab_backend.Samples.{ann, users, start, as_ann, client}

-- Ann follows Cat.
abbrev followed : Backend
followed = record start {
  db = record (start.db) {
    users = record { rows = update 1 (λ u. record u { following = 2 ∷ 3 ∷ [] }) users; next = 4 };
  };
  jobs = (follow as_ann client 3 start).1.jobs;
}

follow_edges_example : follows 1 3 followed.db ≡ (follows 1 3 start.db || (1 == 1 && 3 == 3))
unfolding follow current_id
follow_edges_example = follow_edges as_ann client 1 3 1 3 start followed {id = 3} refl refl
