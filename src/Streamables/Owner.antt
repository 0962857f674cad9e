-- ===== src/Streamables/Owner.antt =====
-- The operations of StreamableService that only the owner of a streamable may do.
pub mod Refusals
use graffi_tab_backend.Prelude.{ℕ, Bool, true, not, some, ◌==◌, update}
use graffi_tab_backend.Prelude.Text.{Text}
use graffi_tab_backend.Errors.{user_not_owner, rest}
use graffi_tab_backend.Model.Content.{Streamable}
use graffi_tab_backend.Model.Content
use graffi_tab_backend.Backend.{
  Backend, Action, enqueue, enqueue_asset, add_previous_asset, pure, throw_if, modify, ◌>>=◌, ◌>>◌,
}
use graffi_tab_backend.Backend
use graffi_tab_backend.Backend.Transactions.{in_transaction, in_transaction_with_result}
use graffi_tab_backend.Backend.Lookup.{Request, get_current_user}
use graffi_tab_backend.Streamables.{
  StreamableForm, validate_text, update_streamable, existing_streamable,
}

abbrev pub moved : StreamableForm → Text → ℕ → Streamable → Streamable
moved f asset now v = record v {
  asset = asset;
  latitude = f.latitude;
  longitude = f.longitude;
  roll = f.roll;
  yaw = f.yaw;
  pitch = f.pitch;
  updated_on = some now;
}

-- The streamable, for its owner only.
abbrev pub own_streamable : Request → ℕ → Action Streamable
own_streamable r id = do
  streamable ← existing_streamable id
  current ← get_current_user r
  throw_if (not (streamable.user == current)) (rest user_not_owner)
  pure streamable

-- `editStreamableGraffiti`
unfoldable pub edit_streamable_graffiti : Request → ℕ → StreamableForm → Text → Action ℕ
unfolding in_transaction_with_result validate_text
edit_streamable_graffiti r id f guid = do
  validate_text f.text
  previous ← in_transaction_with_result do
    streamable ← own_streamable r id
    modify (update_streamable id (moved f guid r.now))
    pure streamable.asset
  add_previous_asset guid previous
  enqueue_asset guid
  pure id

-- `deleteStreamable`
unfoldable pub delete_streamable : Request → ℕ → Action (Unit {0})
unfolding in_transaction
delete_streamable r id =
    in_transaction
      do own_streamable r id; modify (update_streamable id (λ v. record v { is_deleted = true }))

-- `makePublicOrPrivate`
unfoldable pub make_public_or_private : Request → ℕ → Bool → Action ℕ
unfolding in_transaction
make_public_or_private r id is_private = in_transaction do
  own_streamable r id
  modify (update_streamable id (λ v. record v { is_private = is_private }))
  pure id
