-- ===== src/Paging/Grouping/Groups.antt =====
-- What the groups of activities are.
use graffi_tab_backend.Prelude.{
  ℕ, ◌≤◌, ◌≡◌, refl, inl, inr, true, ◌&&◌, List, [], ◌∷◌, length, length-append, All, All-append,
  arith, Bool-cases,
}
use graffi_tab_backend.Model.Content.{Activity}
use graffi_tab_backend.Paging.Grouping.{
  ActivityContainer, ActivityType, type_of, same_type, is_same_type_of_activity, is_same_activity,
  container_of, add_activity, fits, group_rest, group_activities,
}

-- Of the container's type, and by its user.
abbrev pub Belongs : ActivityContainer → Activity → Type 0
Belongs c a = (type_of a.kind ≡ c.activity_type) × (a.user ≡ c.user)

-- Between one and `n` activities, all of the container's type and user.
pub record IsGroup (n : ℕ) (c : ActivityContainer) : Type 0 where
  pub some_activity : 1 ≤ length c.activities
  pub few : length c.activities ≤ n
  pub belong : All (Belongs c) c.activities

same_type_sound : (a b : ActivityType) → same_type a b ≡ true → a ≡ b
same_type_sound a b h = ground arith

container_of-IsGroup : (n : ℕ) (a : Activity) → 1 ≤ n → IsGroup n (container_of a)
container_of-IsGroup n a h = record {
  some_activity = omega arith;
  few = h;
  belong = ((refl, refl), tt);
}

-- An activity of the type and the user of one that belongs to the container belongs to it.
follows-Belongs :
    (a p : Activity) (c : ActivityContainer)
    → is_same_type_of_activity a p ≡ true
    → Belongs c p
    → Belongs c a
follows-Belongs a p c same (t, u) =
    (ground (arith, same_type_sound (type_of a.kind) (type_of p.kind)), ground arith)

add-IsGroup :
    (n : ℕ) (a : Activity) (c : ActivityContainer)
    → fits (length c.activities) n ≡ true
    → Belongs c a
    → IsGroup n c
    → IsGroup n (add_activity a c)
add-IsGroup n a c fit b g = record {
  some_activity = ground (arith, length-append c.activities (a ∷ []), g.some_activity);
  few = ground (arith, length-append c.activities (a ∷ []));
  belong = All-append (Belongs c) c.activities (a ∷ []) g.belong (b, tt);
}

group_rest-IsGroup :
    (n : ℕ) (p : Activity) (c : ActivityContainer) (later : List Activity)
    → 1 ≤ n
    → Belongs c p
    → IsGroup n c
    → All (IsGroup n) (group_rest n p c later)
unfolding group_rest
group_rest-IsGroup n p c [] h b g = (g, tt)
group_rest-IsGroup n p c (a ∷ later) h b g =
    elim (Bool-cases (is_same_type_of_activity a p && fits (length c.activities) n)) [
      | inr other ↦
          let fresh =
            group_rest-IsGroup n a (container_of a) later h (refl, refl)
              (container_of-IsGroup n a h) in
          ground (arith, g, fresh)
      | inl one ↦
          let same : is_same_type_of_activity a p ≡ true = ground arith in
          let fit : fits (length c.activities) n ≡ true = ground arith in
          let b' = follows-Belongs a p c same b in
          elim (Bool-cases (is_same_activity a p)) [
            | inl again ↦ let kept = group_rest-IsGroup n a c later h b' g in ground (arith, kept)
            | inr new ↦
                let more =
                  group_rest-IsGroup n a (add_activity a c) later h b'
                    (add-IsGroup n a c fit b' g) in
                ground (arith, more)
          ]
    ]

-- With a group size `n` of at least one, every group has between one and `n` activities, all of
-- its type and by its user.
pub group_activities-IsGroup :
    (activities : List Activity) (n : ℕ) → 1 ≤ n → All (IsGroup n) (group_activities activities n)
unfolding group_activities
group_activities-IsGroup [] n h = tt
group_activities-IsGroup (a ∷ later) n h =
    group_rest-IsGroup n a (container_of a) (a ∷ later) h (refl, refl) (container_of-IsGroup n a h)

-- With a group size of at most one, the first activity stands in a group of its own and opens
-- the next group again.
pub first_in_two_groups :
    (a : Activity) (later : List Activity) (n : ℕ)
    → n ≤ 1
    → group_activities (a ∷ later) n ≡ container_of a ∷ group_rest n a (container_of a) later
unfolding group_activities group_rest
first_in_two_groups a later n h = ground arith
