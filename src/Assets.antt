-- ===== src/Assets.antt =====
-- service/asset/AssetService.java and the calls of the store by
-- service/image/ImageUtilsService.java: what becomes of a new image after the request that
-- brought it.
pub mod Scaling
mod Tests
use graffi_tab_backend.Prelude.{
  Bool, not, ◌||◌, Option, none, some, List, [], ◌∷◌, ◌++◌, any, if◌then◌else◌,
}
use graffi_tab_backend.Prelude.Text.{Text, codes, text_eq, eq_at?}
use graffi_tab_backend.Errors.{general_error, asset_not_found, rest, null_pointer, ok}
use graffi_tab_backend.Model.{Database}
use graffi_tab_backend.Backend.{
  Action, save_asset, delete_asset, call_store, pure, throw_if, gets, ◌>>=◌, ◌>>◌,
}
use graffi_tab_backend.Backend.Transactions.{in_transaction}

-- `assetGuid + ASSET_THUMBNAIL_SUFFIX`
abbrev pub thumbnail : Text → Text
thumbnail guid = guid ++ codes "_thumb"

-- `Asset.findByGuid`: the row of an image goes with the user or the streamable that has it
-- (`orphanRemoval`), so it is there while one of them refers to it.
abbrev pub asset_exists : Text → Database → Bool
asset_exists guid d =
    any (λ x. eq_at? x.1.avatar_asset guid || eq_at? x.1.cover_asset guid) d.users.rows
    || any (λ x. text_eq x.1.asset guid) d.streamables.rows

-- `getAsset`
unfoldable pub get_asset : Text → Action Text
unfolding in_transaction
get_asset guid =
    in_transaction
      do exists ← gets (asset_exists guid); throw_if (not exists) (rest asset_not_found); pure guid

-- `generateAndUploadImagesForAsset`; `converts` tells whether the image library reads the file.
unfoldable pub generate_and_upload_images : Bool → Text → Action (Unit {0})
generate_and_upload_images converts guid = do
  throw_if (not converts) (rest general_error)
  call_store (save_asset guid)
  call_store (save_asset (thumbnail guid))

-- `newAssetGuidToPreviousAssetGuidMap.get(guid)`
abbrev pub previous_of : Text → List (Text × Text) → Option Text
previous_of guid [] = none
previous_of guid ((new, old) ∷ t) = if text_eq new guid then some old else previous_of guid t

-- `newAssetGuidToPreviousAssetGuidMap.remove(guid)`
abbrev pub without : Text → List (Text × Text) → List (Text × Text)
without guid [] = []
without guid ((new, old) ∷ t) = if text_eq new guid then t else (new, old) ∷ without guid t

abbrev forget_previous : Text → Action (Unit {0})
forget_previous guid s = (ok tt, record s { previous_assets = without guid s.previous_assets })

-- Both images of an asset go from the store.
abbrev pub delete_images : Text → Action (Unit {0})
delete_images guid = do call_store (delete_asset guid); call_store (delete_asset (thumbnail guid))

abbrev delete_previous : Text → Option Text → Action (Unit {0})
delete_previous guid none = pure tt
delete_previous guid (some old) = do delete_images old; forget_previous guid

-- `deferredAssetProcessing`: the transaction dereferences the row of the image.
unfoldable pub deferred_asset_processing : Bool → Text → Action (Unit {0})
unfolding generate_and_upload_images in_transaction
deferred_asset_processing converts guid = do
  generate_and_upload_images converts guid
  in_transaction do exists ← gets (asset_exists guid); throw_if (not exists) null_pointer
  λ s. delete_previous guid (previous_of guid s.previous_assets) s
