-- ===== src/Users/Images/Replaced.antt =====
-- The images of a user in the store, once their processing has run.
use graffi_tab_backend.Prelude.{
  ℕ, ◌≡◌, ◌∙◌, sym, ap, refl, Option, Bool, true, false, ◌||◌, some, List, [], ◌∷◌, ◌++◌, any, find,
  update, find-update, arith,
}
use mathlib.Core.List.{append_assoc}
use graffi_tab_backend.Prelude.Text.{Text, text_eq_refl, eq_at?}
use graffi_tab_backend.Errors.{ok, err, null_pointer}
use graffi_tab_backend.Model.Account.{User}
use graffi_tab_backend.Backend.{Backend, StoreCall, save_asset, delete_asset}
use graffi_tab_backend.Backend.Lookup.{Request, current_id, update_user}
use graffi_tab_backend.Assets.{thumbnail, asset_exists, deferred_asset_processing}
use graffi_tab_backend.Users.Images.{
  UserImageAsset, cover, avatar, image_of, with_image, add_or_replace_user_image_asset,
  delete_image,
}

-- A user refers to the image.
has_image : Text → ℕ × User → Bool
has_image guid x = eq_at? x.1.avatar_asset guid || eq_at? x.1.cover_asset guid

any-update :
    (guid : Text) (k : ℕ) (f : User → User) (t : List (ℕ × User)) {u : User}
    → find k t ≡ some u
    → has_image guid (k, f u) ≡ true
    → any (has_image guid) (update k f t) ≡ true
unfolding has_image
any-update guid k f [] {u} e h = cc
any-update guid k f ((j, v) ∷ t) {u} e h = ground (arith, any-update guid k f t {u = u})

with_image-has_image :
    (image : UserImageAsset) (guid : Text) (now k : ℕ) (u : User)
    → has_image guid (k, with_image image (some guid) now u) ≡ true
unfolding has_image
with_image-has_image cover guid now k u = ground (arith, text_eq_refl guid)
with_image-has_image avatar guid now k u = ground (arith, text_eq_refl guid)

-- What the request leaves.
replaced :
    (r : Request) (image : UserImageAsset) (guid old : Text) (a : ℕ) (s : Backend) {u : User}
    → current_id r ≡ some a
    → find a s.db.users.rows ≡ some u
    → image_of image u ≡ some old
    → add_or_replace_user_image_asset r image guid s ≡ (
      ok guid,
      record s {
        db = update_user a (with_image image (some guid) r.now) s.db;
        asset_jobs = s.asset_jobs ++ guid ∷ [];
        previous_assets = (guid, old) ∷ s.previous_assets;
      },
    )
unfolding add_or_replace_user_image_asset
replaced r cover guid old a s current row before = ground arith
replaced r avatar guid old a s current row before = ground arith

processed :
    (guid old : Text) (p : List (Text × Text)) (s : Backend)
    → asset_exists guid s.db ≡ true
    → s.previous_assets ≡ (guid, old) ∷ p
    → deferred_asset_processing true guid s ≡ (
      ok tt,
      record s {
        previous_assets = p;
        store_calls =
            (((s.store_calls ++ save_asset guid ∷ []) ++ save_asset (thumbnail guid) ∷ [])
              ++ delete_asset old ∷ [])
            ++ delete_asset (thumbnail old) ∷ [];
      },
    )
unfolding deferred_asset_processing
processed guid old p s there mapped = ground (arith, text_eq_refl guid)

exists :
    (guid : Text) (a : ℕ) (f : User → User) (s s' : Backend)
    → s'.db ≡ update_user a f s.db
    → any (has_image guid) (update a f s.db.users.rows) ≡ true
    → asset_exists guid s'.db ≡ true
unfolding has_image
exists guid a f s s' e h = ground arith

found :
    (a : ℕ) (f : User → User) (t : List (ℕ × User)) {u : User}
    → find a t ≡ some u
    → find a (update a f t) ≡ some (f u)
found a f t {u} row = ground (arith, find-update a a f t)

-- The calls of a deletion.
deleted :
    (r : Request) (image : UserImageAsset) (guid : Text) (a : ℕ) (s s' : Backend) {u : User}
    → current_id r ≡ some a
    → find a s.db.users.rows ≡ some u
    → image_of image u ≡ some guid
    → delete_image r image s ≡ (ok tt, s')
    → s'.store_calls
      ≡ (s.store_calls ++ delete_asset guid ∷ []) ++ delete_asset (thumbnail guid) ∷ []
unfolding delete_image
deleted r cover guid a s s' current row before e = ground arith
deleted r avatar guid a s s' current row before e = ground arith

failed :
    (guid : Text) (s : Backend)
    → asset_exists guid s.db ≡ false
    → deferred_asset_processing true guid s ≡ (
      err null_pointer,
      record s {
        store_calls = (s.store_calls ++ save_asset guid ∷ []) ++ save_asset (thumbnail guid) ∷ [];
      },
    )
unfolding deferred_asset_processing
failed guid s gone = ground arith

four_calls :
    (l : List StoreCall) (a b c d : StoreCall)
    → (((l ++ a ∷ []) ++ b ∷ []) ++ c ∷ []) ++ d ∷ [] ≡ l ++ a ∷ b ∷ c ∷ d ∷ []
four_calls l a b c d = simp append_assoc

-- The row of a user with the image in its place.
abbrev placed : UserImageAsset → Text → ℕ → User → User
placed image guid now u = elim image [
  | cover ↦ record u { cover_asset = some guid; updated_on = some now }
  | avatar ↦ record u { avatar_asset = some guid; updated_on = some now }
]

abbrev asset_of : UserImageAsset → User → Option Text
asset_of image u = elim image [ cover ↦ u.cover_asset | avatar ↦ u.avatar_asset ]

image_of-eq-asset_of : (image : UserImageAsset) (u : User) → image_of image u ≡ asset_of image u
image_of-eq-asset_of cover u = refl
image_of-eq-asset_of avatar u = refl

with_image-eq-placed :
    (image : UserImageAsset) (guid : Text) (now : ℕ) (u : User)
    → with_image image (some guid) now u ≡ placed image guid now u
with_image-eq-placed cover guid now u = refl
with_image-eq-placed avatar guid now u = refl

-- Where the current user has an avatar, or a cover, a new one takes its place in the row, where
-- only the time of the update changes besides, and the processing
-- of the new image, if the image library reads it, saves the new image with its thumbnail, deletes
-- the old one with its thumbnail, and leaves no trace of the exchange in the map of the service.
pub replaced_image_goes :
    (r : Request) (image : UserImageAsset) (guid old : Text) (a : ℕ) (s s' s'' : Backend) {u : User}
    → current_id r ≡ some a
    → find a s.db.users.rows ≡ some u
    → elim image [ cover ↦ u.cover_asset | avatar ↦ u.avatar_asset ] ≡ some old
    → (add_or_replace_user_image_asset r image guid s).1 ≡ s'
    → (deferred_asset_processing true guid s').1 ≡ s''
    → ((add_or_replace_user_image_asset r image guid s).0 ≡ ok guid)
      × ((deferred_asset_processing true guid s').0 ≡ ok tt)
      × (find a s''.db.users.rows
          ≡ some (elim image [
            | cover ↦ record u { cover_asset = some guid; updated_on = some r.now }
            | avatar ↦ record u { avatar_asset = some guid; updated_on = some r.now }
          ]))
      × (s''.previous_assets ≡ s.previous_assets)
      × (s''.store_calls
          ≡ s.store_calls
            ++ save_asset guid
              ∷ save_asset (thumbnail guid)
              ∷ delete_asset old
              ∷ delete_asset (thumbnail old)
              ∷ [])
replaced_image_goes r image guid old a s s' s'' {u} current row before e e' =
    let f : User → User = with_image image (some guid) r.now in
    let request =
      replaced r image guid old a s {u = u} current row (image_of-eq-asset_of image u ∙ before) in
    let left : s' ≡ record s {
      db = update_user a f s.db;
      asset_jobs = s.asset_jobs ++ guid ∷ [];
      previous_assets = (guid, old) ∷ s.previous_assets;
    } =
      sym e ∙ ap (λ x. x.1) request in
    let referred : any (has_image guid) (update a f s.db.users.rows) ≡ true =
      any-update guid a f s.db.users.rows {u = u} row (with_image-has_image image guid r.now a u) in
    let there : asset_exists guid s'.db ≡ true =
      exists guid a f s s' (ap (λ x. x.db) left) referred in
    let job = processed guid old s.previous_assets s' there (ap (λ x. x.previous_assets) left) in
    let calls =
      four_calls s.store_calls (save_asset guid) (save_asset (thumbnail guid)) (delete_asset old)
        (delete_asset (thumbnail old)) in
    let db : s''.db ≡ update_user a f s.db =
      ap (λ x. x.db) (sym e' ∙ ap (λ x. x.1) job) ∙ ap (λ x. x.db) left in
    (
      ap (λ x. x.0) request,
      ap (λ x. x.0) job,
      ap (λ d. find a d.users.rows) db
          ∙ found a f s.db.users.rows {u = u} row
          ∙ ap some (with_image-eq-placed image guid r.now u),
      ap (λ x. x.previous_assets) (sym e' ∙ ap (λ x. x.1) job),
      ap (λ x. x.store_calls) (sym e' ∙ ap (λ x. x.1) job)
          ∙ ap
              (λ x.
                (((x.store_calls ++ save_asset guid ∷ []) ++ save_asset (thumbnail guid) ∷ [])
                  ++ delete_asset old ∷ [])
                ++ delete_asset (thumbnail old) ∷ [])
              left
          ∙ calls,
    )

-- Where the current user deletes an avatar, or a cover, whose processing has not run yet, and
-- nothing else refers to the image, the processing throws, but only after it saved the image and
-- its thumbnail, which the request had deleted before: both stay in the store.
pub deleted_image_stays :
    (r : Request) (image : UserImageAsset) (guid : Text) (a : ℕ) (s s' : Backend) {u : User}
    → current_id r ≡ some a
    → find a s.db.users.rows ≡ some u
    → image_of image u ≡ some guid
    → delete_image r image s ≡ (ok tt, s')
    → asset_exists guid s'.db ≡ false
    → deferred_asset_processing true guid s' ≡ (
      err null_pointer,
      record s' {
        store_calls =
            s.store_calls
            ++ delete_asset guid
              ∷ delete_asset (thumbnail guid)
              ∷ save_asset guid
              ∷ save_asset (thumbnail guid)
              ∷ [];
      },
    )
deleted_image_stays r image guid a s s' {u} current row before e gone =
    let calls =
      four_calls s.store_calls (delete_asset guid) (delete_asset (thumbnail guid)) (save_asset guid)
        (save_asset (thumbnail guid)) in
    failed guid s' gone
    ∙ ap
        (λ c. (
          err null_pointer,
          record s' {
            store_calls = (c ++ save_asset guid ∷ []) ++ save_asset (thumbnail guid) ∷ [];
          },
        ))
        (deleted r image guid a s s' {u = u} current row before e)
    ∙ ap (λ c. (err null_pointer, record s' { store_calls = c })) calls
