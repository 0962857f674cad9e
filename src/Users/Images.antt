-- ===== src/Users/Images.antt =====
-- The avatar and the cover in service/user/UserService.java.
pub mod Replaced
use graffi_tab_backend.Prelude.{ℕ, Option, none, some, find}
use graffi_tab_backend.Prelude.Text.{Text}
use graffi_tab_backend.Model.Account.{User}
use graffi_tab_backend.Backend.{
  Action, pure, modify, enqueue_asset, add_previous_asset, ◌>>=◌, ◌>>◌,
}
use graffi_tab_backend.Backend.Transactions.{in_transaction}
use graffi_tab_backend.Backend.Lookup.{
  find_user_by_id, update_user, deref, Request, get_current_user,
}
use graffi_tab_backend.Assets.{delete_images}

-- `UserImageAsset`
pub data UserImageAsset : Type 0 where
  cover avatar : UserImageAsset

abbrev pub image_of : UserImageAsset → User → Option Text
image_of cover u = u.cover_asset
image_of avatar u = u.avatar_asset

abbrev pub with_image : UserImageAsset → Option Text → ℕ → User → User
with_image cover guid now u = record u { cover_asset = guid; updated_on = some now }
with_image avatar guid now u = record u { avatar_asset = guid; updated_on = some now }

abbrev map_previous : Text → Option Text → Action (Unit {0})
map_previous guid none = pure tt
map_previous guid (some old) = add_previous_asset guid old

-- `addOrReplaceUserImageAsset`, which `addOrEditAvatar` and `addOrEditCover` call; `guid` is drawn
-- for the image, which was transferred.
unfoldable pub add_or_replace_user_image_asset : Request → UserImageAsset → Text → Action Text
unfolding in_transaction
add_or_replace_user_image_asset r image guid = do
  current ← get_current_user r
  in_transaction do
    found ← find_user_by_id current
    user ← deref found
    map_previous guid (image_of image user)
    modify (update_user current (with_image image (some guid) r.now))
  enqueue_asset guid
  pure guid

abbrev delete_if_set : Request → ℕ → UserImageAsset → Option Text → Action (Unit {0})
delete_if_set r current image none = pure tt
delete_if_set r current image (some guid) = do
  in_transaction (modify (update_user current (with_image image none r.now)))
  delete_images guid

-- `deleteAvatar` and `deleteCover`
unfoldable pub delete_image : Request → UserImageAsset → Action (Unit {0})
unfolding in_transaction
delete_image r image = do
  current ← get_current_user r
  found ← find_user_by_id current
  user ← deref found
  delete_if_set r current image (image_of image user)
