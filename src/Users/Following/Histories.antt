-- ===== src/Users/Following/Histories.antt =====
-- Histories of `follow` and `unfollow` against an abstract graph.
use graffi_tab_backend.Prelude.{
  ℕ, ◌≡◌, ◌∙◌, inl, inr, Bool, not, ◌&&◌, ◌||◌, none, some, List, [], ◌∷◌, ◌==◌, find, find-update,
  is_some, arith, Option-cases, if◌then◌else◌,
}
use graffi_tab_backend.Model.Account.{User}
use graffi_tab_backend.Backend.{Backend}
use graffi_tab_backend.Backend.Lookup.{Request, current_id, update_user}
use graffi_tab_backend.Users.Following.{Client, follow, unfollow, add_following, remove_following}
use graffi_tab_backend.Users.Following.Graph.{
  follows, add_following_edges, remove_following_edges, IsGraph, find-IsGraph, follow-IsGraph,
  unfollow-IsGraph,
}

pub data Call : Type 0 where
  follow_call : Request → Client → ℕ → Call
  unfollow_call : Request → ℕ → Call

-- The state after a call, whether it returns or throws.
pub run_call : Call → Backend → Backend
run_call (follow_call r c b) s = (follow r c b s).1
run_call (unfollow_call r b) s = (unfollow r b s).1

pub run_calls : List Call → Backend → Backend
unfolding run_call
run_calls [] s = s
run_calls (c ∷ cs) s = run_calls cs (run_call c s)

-- What the calls promise: a set of edges between the accounts that there are.
abbrev pub Edges : Type 0
Edges = ℕ → ℕ → Bool

abbrev pub link : ℕ → ℕ → Edges → Edges
link a b g x y = g x y || (x == a && y == b)

abbrev pub cut : ℕ → ℕ → Edges → Edges
cut a b g x y = g x y && not (x == a && y == b)

rows-update :
    (a x : ℕ) (f : User → User) (s : Backend)
    → is_some (find x (update_user a f s.db).users.rows) ≡ is_some (find x s.db.users.rows)
rows-update a x f s = elim (Option-cases (find x s.db.users.rows)) [
  | inl e ↦ ground (arith, find-update x a f s.db.users.rows)
  | inr (u, e) ↦ ground (arith, find-update x a f s.db.users.rows)
]

follow-rows :
    (r : Request) (c : Client) (b x : ℕ) (s : Backend)
    → is_some (find x (follow r c b s).1.db.users.rows) ≡ is_some (find x s.db.users.rows)
unfolding follow
follow-rows r c b x s = elim (Option-cases (current_id r)) [
  | inl e ↦ ground arith
  | inr (a, e) ↦ ground (arith, rows-update a x (add_following b) s)
]

unfollow-rows :
    (r : Request) (b x : ℕ) (s : Backend)
    → is_some (find x (unfollow r b s).1.db.users.rows) ≡ is_some (find x s.db.users.rows)
unfolding unfollow
unfollow-rows r b x s = elim (Option-cases (current_id r)) [
  | inl e ↦ ground arith
  | inr (a, e) ↦ ground (arith, rows-update a x (remove_following b) s)
]

module _ (accounts : ℕ → Bool) where
  abbrev pub effect : Call → Edges → Edges
  effect (follow_call r c b) g = elim (current_id r) [
    | none ↦ g
    | some a ↦ if accounts a && accounts b && not (a == b) then link a b g else g
  ]
  effect (unfollow_call r b) g = elim (current_id r) [
    | none ↦ g
    | some a ↦ if accounts a && accounts b then cut a b g else g
  ]

  abbrev pub effects : List Call → Edges → Edges
  effects [] g = g
  effects (c ∷ cs) g = effects cs (effect c g)

  -- The table has these accounts, and these edges, no edge twice.
  pub record Represents (s : Backend) (g : Edges) : Type 0 where
    pub rows : (x : ℕ) → is_some (find x s.db.users.rows) ≡ accounts x
    pub edges : (x y : ℕ) → follows x y s.db ≡ g x y
    pub graph : IsGraph s.db.users.rows

  follow-edges :
      (r : Request) (c : Client) (b x y : ℕ) (s : Backend) (g : Edges)
      → Represents s g
      → follows x y (follow r c b s).1.db ≡ effect (follow_call r c b) g x y
  unfolding follow current_id
  follow-edges r c b x y s g h = elim (Option-cases (current_id r)) [
    | inl e ↦ ground (arith, h.edges x y)
    | inr (a, e) ↦
        ground
          (arith, h.edges x y, h.edges a b, h.rows a, h.rows b, add_following_edges a b x y s.db)
  ]

  unfollow-edges :
      (r : Request) (b x y : ℕ) (s : Backend) (g : Edges)
      → Represents s g
      → follows x y (unfollow r b s).1.db ≡ effect (unfollow_call r b) g x y
  unfolding unfollow current_id
  unfollow-edges r b x y s g h = elim (Option-cases (current_id r)) [
    | inl e ↦ ground (arith, h.edges x y)
    | inr (a, e) ↦ elim (Option-cases (find a s.db.users.rows)) [
      | inl none_there ↦ ground (arith, h.edges x y, h.rows a)
      | inr (u, there) ↦
          let nodup = find-IsGraph a s.db.users.rows h.graph there in
          ground (
            arith,
            h.edges x y,
            h.rows a,
            h.rows b,
            remove_following_edges a b x y s.db there nodup,
          )
    ]
  ]

  -- A call does to the edges of the table what it promises.
  run_call-Represents :
      (c : Call) (s : Backend) (g : Edges) → Represents s g → Represents (run_call c s) (effect c g)
  unfolding run_call
  run_call-Represents (follow_call r c b) s g h = record {
    rows = λ x. follow-rows r c b x s ∙ h.rows x;
    edges = λ x y. follow-edges r c b x y s g h;
    graph = follow-IsGraph r c b s h.graph;
  }
  run_call-Represents (unfollow_call r b) s g h = record {
    rows = λ x. unfollow-rows r b x s ∙ h.rows x;
    edges = λ x y. unfollow-edges r b x y s g h;
    graph = unfollow-IsGraph r b s h.graph;
  }

  -- Where the table has the accounts `accounts` and the edges `g`, no edge twice and none from a
  -- user to themselves, any history of calls of `follow` and `unfollow`, by whatever users and
  -- whether they return or throw, leaves the same accounts, and the edges that the abstract graph
  -- has after it: a follow links two different accounts, an unfollow cuts the link, and a call
  -- without a current user or with an account that is not there has no effect.
  pub run_calls-Represents :
      (cs : List Call) (s : Backend) (g : Edges)
      → Represents s g
      → Represents (run_calls cs s) (effects cs g)
  unfolding run_calls
  run_calls-Represents [] s g h = h
  run_calls-Represents (c ∷ cs) s g h =
      run_calls-Represents cs (run_call c s) (effect c g) (run_call-Represents c s g h)
