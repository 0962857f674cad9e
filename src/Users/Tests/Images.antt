-- ===== src/Users/Tests/Images.antt =====
-- Ann has an avatar.
use graffi_tab_backend.Prelude.{◌≡◌, ◌++◌, refl, true, some, [], ◌∷◌, find}
use graffi_tab_backend.Prelude.Text.{codes}
use graffi_tab_backend.Errors.{ok}
use graffi_tab_backend.Model.Account.{User}
use graffi_tab_backend.Backend.{Backend, save_asset, delete_asset}
use graffi_tab_backend.Backend.Lookup.{current_id}
use graffi_tab_backend.Assets.{thumbnail, deferred_asset_processing}
use graffi_tab_backend.Users.Images.{avatar, add_or_replace_user_image_asset}
use graffi_tab_backend.Users.Images.Replaced.{replaced_image_goes}
use graffi_tab_backend.Samples.{start, ann, as_ann}

abbrev pictured_ann : User
pictured_ann = record ann { avatar_asset = some (codes "old") }

abbrev pictured : Backend
pictured = record start {
  db = record (start.db) { users = record { rows = (1, pictured_ann) ∷ []; next = 4 } };
}

abbrev replaced : Backend
replaced = (add_or_replace_user_image_asset as_ann avatar (codes "new") pictured).1

replaced_image_goes_example :
    ((add_or_replace_user_image_asset as_ann avatar (codes "new") pictured).0 ≡ ok (codes "new"))
    × ((deferred_asset_processing true (codes "new") replaced).0 ≡ ok tt)
    × (find 1 (deferred_asset_processing true (codes "new") replaced).1.db.users.rows
        ≡ some (record pictured_ann {
          avatar_asset = some (codes "new");
          updated_on = some as_ann.now;
        }))
    × ((deferred_asset_processing true (codes "new") replaced).1.previous_assets
        ≡ pictured.previous_assets)
    × ((deferred_asset_processing true (codes "new") replaced).1.store_calls
        ≡ pictured.store_calls
          ++ save_asset (codes "new")
            ∷ save_asset (thumbnail (codes "new"))
            ∷ delete_asset (codes "old")
            ∷ delete_asset (thumbnail (codes "old"))
            ∷ [])
unfolding current_id
replaced_image_goes_example =
    replaced_image_goes as_ann avatar (codes "new") (codes "old") 1 pictured replaced
      (deferred_asset_processing true (codes "new") replaced).1 {u = pictured_ann} refl refl refl
      refl refl
