-- ===== src/Users/Tests/Graphs.antt =====
-- Ann follows Cat, and no longer Bob; and a follow that she takes back.
use graffi_tab_backend.Prelude.{ℕ, refl, Bool, List, [], ◌∷◌, find, is_some}
use graffi_tab_backend.Users.Following.Graph.{follows}
use graffi_tab_backend.Users.Following.Histories.{
  Call, follow_call, unfollow_call, run_calls, Edges, effects, Represents, run_calls-Represents,
}
use graffi_tab_backend.Samples.{users, start, as_ann, client, users-IsGraph}

abbrev accounts : ℕ → Bool
accounts x = is_some (find x users)

abbrev edges : Edges
edges x y = follows x y start.db

abbrev calls : List Call
calls = follow_call as_ann client 3 ∷ unfollow_call as_ann 2 ∷ []

start-Represents : Represents accounts start edges
start-Represents = record { rows = λ x. refl; edges = λ x y. refl; graph = users-IsGraph }

run_calls-Represents_example :
    Represents accounts (run_calls calls start) (effects accounts calls edges)
run_calls-Represents_example = run_calls-Represents accounts calls start edges start-Represents
