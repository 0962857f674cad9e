-- ===== src/TextUtils/Mentions.antt =====
-- What the job that parses a text leaves: the notifications of those whom it mentions.
use graffi_tab_backend.Prelude.{
  ℕ, ◌≡◌, ◌∙◌, refl, ap, inl, inr, Bool, false, Option, none, some, List, [], ◌∷◌, ◌==◌, find,
  select, IsKeyed, arith, Option-cases, Bool-cases, if◌then◌else◌,
}
use graffi_tab_backend.Prelude.Text.{Text, text_eq, text_eq_iff}
use graffi_tab_backend.Errors.{ok}
use graffi_tab_backend.Model.Account.{User}
use graffi_tab_backend.Model.Content
use graffi_tab_backend.Backend.{Backend, Action}
use graffi_tab_backend.Backend.Lookup.{unique_result}
use graffi_tab_backend.Backend.Lookup.Laws.{unique-found, unique-missing, unique-only}
use graffi_tab_backend.Users.Invariant.Distinct.{IsDistinct}
use graffi_tab_backend.Notifications.{new_notification, persist_notification}
use graffi_tab_backend.TextUtils.{parse_mention, for_each}

-- A round that returns leaves the state to the rounds after it.
pub for_each_step :
    (f : Text → Action (Unit {0})) (g : Text) (gs : List Text) (s s' : Backend)
    → f g s ≡ (ok tt, s')
    → for_each f (g ∷ gs) s ≡ for_each f gs s'
for_each_step f g gs s s' e = ground arith

abbrev named : Text → ℕ → User → Bool
named name j u = text_eq u.username name

-- The row that the query for a user name finds.
abbrev pub first_named : Text → List (ℕ × User) → Option (ℕ × User)
first_named name t = elim (select (named name) t) [ [] ↦ none | x ∷ xs ↦ some x ]

-- Where no username stands twice, the query for one finds no two rows.
unique_named :
    (name : Text) (t : List (ℕ × User))
    → IsDistinct (λ u. u.username) t
    → unique_result (select (named name) t) ≡ ok (first_named name t)
unique_named name [] d = refl
unique_named name ((j, u) ∷ t) (a, d) = elim (Bool-cases (text_eq u.username name)) [
  | inl hit ↦
      let same : u.username ≡ name = (text_eq_iff u.username name).0 hit in
      let alone : select (named name) t ≡ [] = rw (← same) a in ground arith
  | inr miss ↦ ground (arith, unique_named name t d)
]

module _ (current streamable : ℕ) (comment : Option ℕ) (now : ℕ) where
  -- The notification for a mention of another user.
  abbrev pub noted : Option (ℕ × User) → Backend → Backend
  noted none s = s
  noted (some (b, u)) s = if b == current then s else record s {
    db =
        persist_notification (new_notification b (Content.mention current streamable comment) now)
          s.db;
  }

  parse_mention_lem :
      (g : Text) (s : Backend)
      → IsKeyed s.db.users.rows
      → IsDistinct (λ u. u.username) s.db.users.rows
      → parse_mention current streamable comment now g s
        ≡ (ok tt, noted (first_named g s.db.users.rows) s)
  unfolding parse_mention
  parse_mention_lem g s k d =
      let query = unique_named g s.db.users.rows d in
      elim (Option-cases (first_named g s.db.users.rows)) [
        | inl e ↦ ground arith
        | inr ((b, u), e) ↦
            let (there, _) = unique-found (named g) s.db.users.rows k (query ∙ ap ok e) in
            ground arith
      ]

  -- A round leaves the users and the streamables alone.
  pub noted_keeps :
      (o : Option (ℕ × User)) (s : Backend)
      → ((noted o s).db.users ≡ s.db.users) × ((noted o s).db.streamables ≡ s.db.streamables)
  noted_keeps none s = (refl, refl)
  noted_keeps (some (b, u)) s = (ground arith, ground arith)

  -- The state after the loop for the mentions.
  abbrev pub all_noted : List (ℕ × User) → List Text → Backend → Backend
  all_noted t [] s = s
  all_noted t (g ∷ gs) s = all_noted t gs (noted (first_named g t) s)

  pub all_noted_keeps :
      (t : List (ℕ × User)) (gs : List Text) (s : Backend)
      → ((all_noted t gs s).db.users ≡ s.db.users)
        × ((all_noted t gs s).db.streamables ≡ s.db.streamables)
  all_noted_keeps t [] s = (refl, refl)
  all_noted_keeps t (g ∷ gs) s =
      let (u, v) = all_noted_keeps t gs (noted (first_named g t) s) in
      let (u', v') = noted_keeps (first_named g t) s in (u ∙ u', v ∙ v')

  pub parse_mentions_lem :
      (t : List (ℕ × User)) (gs : List Text) (s : Backend)
      → s.db.users.rows ≡ t
      → IsKeyed t
      → IsDistinct (λ u. u.username) t
      → for_each (parse_mention current streamable comment now) gs s ≡ (ok tt, all_noted t gs s)
  parse_mentions_lem t [] s e k d = refl
  parse_mentions_lem t (g ∷ gs) s e k d =
      let s' : Backend = noted (first_named g t) s in
      let round : parse_mention current streamable comment now g s ≡ (ok tt, s') =
        rw (← e) (parse_mention_lem g s (rw e k) (rw e d)) in
      for_each_step (parse_mention current streamable comment now) g gs s s' round
      ∙ parse_mentions_lem t gs s' (ap (λ x. x.rows) (noted_keeps (first_named g t) s).0 ∙ e) k d

abbrev pub is_for : ℕ → Option (ℕ × User) → Bool
is_for b none = false
is_for b (some (c, u)) = b == c

-- The query finds a user exactly for their own name.
pub is_for-first_named :
    (b : ℕ) (g : Text) (t : List (ℕ × User)) {u : User}
    → IsKeyed t
    → IsDistinct (λ w. w.username) t
    → find b t ≡ some u
    → is_for b (first_named g t) ≡ text_eq u.username g
is_for-first_named b g t {u} k d row =
    let query = unique_named g t d in
    elim (Option-cases (first_named g t)) [
      | inl e ↦ ground (arith, unique-missing (named g) t b {v = u} (query ∙ ap ok e) row)
      | inr ((c, w), e) ↦
          let (there, hit) = unique-found (named g) t k (query ∙ ap ok e) in
          elim (Bool-cases (text_eq u.username g)) [
            | inl same ↦
                let one = unique-only (named g) t b {w = u} k (query ∙ ap ok e) row same in
                ground arith
            | inr other ↦ ground arith
          ]
    ]
