-- ===== src/Streamables/Owner/Refusals.antt =====
-- Who may edit, delete or hide a streamable, and what a refused call leaves.
use graffi_tab_backend.Prelude.{
  ℕ, ◌≤◌, ◌≡◌, ◌≢◌, ◌++◌, refl, ◌↔◌, ◌⊎◌, inl, inr, Bool, true, false, none, some, [], ◌∷◌, find,
  length, All, arith, Option-cases, Bool-cases,
}
use native.Mathlib.Decide.{ℕ_discrete}
use graffi_tab_backend.Prelude.Text.{Text}
use graffi_tab_backend.Errors.{
  Failure, Result, ok, err, rest, wrapped, streamable_not_found, user_not_owner, user_not_logged_in,
}
use graffi_tab_backend.Model.Content.{Streamable}
use graffi_tab_backend.Backend.{Backend}
use graffi_tab_backend.Backend.Lookup.{Request, current_id}
use graffi_tab_backend.Streamables.{
  StreamableForm, update_streamable, validate_text, has_text, is_whitespace,
}
use graffi_tab_backend.Streamables.Owner.{
  edit_streamable_graffiti, delete_streamable, make_public_or_private,
}

-- The current user owns the streamable.
abbrev pub Owns : Request → ℕ → Backend → Type 0
Owns r id s =
    (v : Streamable) × (find id s.db.streamables.rows ≡ some v) × (current_id r ≡ some v.user)

-- How an operation for the owner ends: it returns `a` and leaves `s'` for the owner, and it
-- throws and leaves everything as it was where the streamable is not there, nobody is logged
-- in, or somebody else is. `w` wraps the exception.
abbrev pub Outcome :
    {A : Type 0}
    → Request
    → ℕ
    → (Failure → Failure)
    → A
    → Backend
    → Backend
    → Result A × Backend
    → Type 0
Outcome r id w a s s' x =
    (Owns r id s × (x ≡ (ok a, s')))
    ⊎ ((find id s.db.streamables.rows ≡ none) × (x ≡ (err (w (rest streamable_not_found)), s)))
    ⊎ ((find id s.db.streamables.rows ≢ none)
        × (current_id r ≡ none)
        × (x ≡ (err (w (rest user_not_logged_in)), s)))
    ⊎ ((v : Streamable) × (b : ℕ) × (find id s.db.streamables.rows ≡ some v)
        × (current_id r ≡ some b)
        × (b ≢ v.user)
        × (x ≡ (err (w (rest user_not_owner)), s)))

-- `deleteStreamable` marks the streamable as deleted for its owner. Where the streamable is not
-- there, nobody is logged in, or somebody else is, it throws the exception for that case and
-- changes nothing.
pub delete_streamable-Outcome :
    (r : Request) (id : ℕ) (s : Backend)
    → Outcome r id
        (λ e. e)
        tt
        s
        (record s { db = update_streamable id (λ v. record v { is_deleted = true }) s.db })
        (delete_streamable r id s)
unfolding delete_streamable
delete_streamable-Outcome r id s = elim (Option-cases (find id s.db.streamables.rows)) [
  | inl e ↦ inr (inl (e, ground arith))
  | inr (v, e) ↦ elim (Option-cases (current_id r)) [
    | inl c ↦ inr (inr (inl (ground arith, c, ground arith)))
    | inr (b, c) ↦ elim (ℕ_discrete b v.user) [
      | yes same ↦ inl ((v, e, ground arith), ground arith)
      | no other ↦ inr (inr (inr (v, b, e, c, other, ground arith)))
    ]
  ]
]

-- `makePublicOrPrivate` sets the flag for the owner, and for nobody else.
pub make_public_or_private-Outcome :
    (r : Request) (id : ℕ) (p : Bool) (s : Backend)
    → Outcome r id
        (λ e. e)
        id
        s
        (record s { db = update_streamable id (λ v. record v { is_private = p }) s.db })
        (make_public_or_private r id p s)
unfolding make_public_or_private
make_public_or_private-Outcome r id p s = elim (Option-cases (find id s.db.streamables.rows)) [
  | inl e ↦ inr (inl (e, ground arith))
  | inr (v, e) ↦ elim (Option-cases (current_id r)) [
    | inl c ↦ inr (inr (inl (ground arith, c, ground arith)))
    | inr (b, c) ↦ elim (ℕ_discrete b v.user) [
      | yes same ↦ inl ((v, e, ground arith), ground arith)
      | no other ↦ inr (inr (inr (v, b, e, c, other, ground arith)))
    ]
  ]
]

-- What an accepted edit leaves: the row with its new image, place and angles, the old image
-- mapped from the new one, and the new image queued.
abbrev pub after_edit : Request → ℕ → StreamableForm → Text → Backend → Backend
after_edit r id f guid s = elim (find id s.db.streamables.rows) [
  | none ↦ s
  | some v ↦ record s {
    db =
        update_streamable id
          (λ v. record v {
            asset = guid;
            latitude = f.latitude;
            longitude = f.longitude;
            roll = f.roll;
            yaw = f.yaw;
            pitch = f.pitch;
            updated_on = some r.now;
          })
          s.db;
    asset_jobs = s.asset_jobs ++ guid ∷ [];
    previous_assets = (guid, v.asset) ∷ s.previous_assets;
  }
]

-- An edit whose text passes the validation sets the image, the latitude, the longitude, the three
-- angles and the time of the update of the streamable for its owner, keeps the old image for its
-- removal, and queues the new one for its processing. Where the streamable is not there, nobody
-- is logged in, or somebody else is, it throws the exception for that case, wrapped, and changes
-- nothing.
pub edit_streamable_graffiti-Outcome :
    (r : Request) (id : ℕ) (f : StreamableForm) (guid : Text) (s : Backend)
    → validate_text f.text s ≡ (ok tt, s)
    → Outcome r id wrapped id s (after_edit r id f guid s) (edit_streamable_graffiti r id f guid s)
unfolding edit_streamable_graffiti
edit_streamable_graffiti-Outcome r id f guid s short =
    elim (Option-cases (find id s.db.streamables.rows)) [
      | inl e ↦ inr (inl (e, ground arith))
      | inr (v, e) ↦ elim (Option-cases (current_id r)) [
        | inl c ↦ inr (inr (inl (ground arith, c, ground arith)))
        | inr (b, c) ↦ elim (ℕ_discrete b v.user) [
          | yes same ↦ inl ((v, e, ground arith), ground arith)
          | no other ↦ inr (inr (inr (v, b, e, c, other, ground arith)))
        ]
      ]
    ]

-- A text passes the validation exactly when it has at most 5000 code units, or all of them are
-- white space.
pub validate_text_iff :
    (t : Text) (s : Backend)
    → (validate_text (some t) s ≡ (ok tt, s))
      ↔ ((length t ≤ 5000) ⊎ All (λ c. is_whitespace c ≡ true) t)
unfolding validate_text
validate_text_iff t s = elim (Bool-cases (has_text (some t))) [
  | inl h ↦ (
    λ e. inl (ground arith),
    λ k. elim k [ inl l ↦ ground arith | inr a ↦ absurd (ground (arith, blank t a)) ],
  )
  | inr h ↦ (λ e. inr (blank_back t h), λ k. ground arith)
]
  where
    blank : (t : Text) → All (λ c. is_whitespace c ≡ true) t → has_text (some t) ≡ false
    blank [] a = refl
    blank (c ∷ t) (h, a) = ground (arith, blank t a)

    blank_back : (t : Text) → has_text (some t) ≡ false → All (λ c. is_whitespace c ≡ true) t
    blank_back [] h = tt
    blank_back (c ∷ t) h = elim (Bool-cases (is_whitespace c)) [
      | inl w ↦ (w, blank_back t (ground arith))
      | inr w ↦ absurd (ground arith)
    ]
