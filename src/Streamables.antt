-- ===== src/Streamables.antt =====
-- service/streamable/StreamableService.java: what users post, and what others do to it.
pub mod Owner
pub mod Reactions
pub mod Visibility
pub mod Stats
mod Tests
use graffi_tab_backend.Prelude.{
  ℕ, ◌+◌, Bool, false, not, ◌&&◌, ◌||◌, Option, none, some, [], ◌∷◌, ◌++◌, ◌==◌, leb, ltb, any,
  find, update, length,
}
use graffi_tab_backend.Prelude.Text.{Text}
use graffi_tab_backend.Errors.{streamable_not_found, text_too_long, rest}
use graffi_tab_backend.Model.{Database}
use graffi_tab_backend.Model.Content.{Streamable}
use graffi_tab_backend.Model.Content
use graffi_tab_backend.Backend.{
  Backend, Action, add_activity, enqueue, enqueue_asset, pure, throw_if, or_throw, gets, modify,
  ◌>>=◌, ◌>>◌,
}
use graffi_tab_backend.Backend
use graffi_tab_backend.Backend.Transactions.{in_transaction, in_transaction_with_result}
use graffi_tab_backend.Backend.Lookup.{find_user_by_id, deref, Request, get_current_user}
use graffi_tab_backend.Users.Following.{Client}

-- `Character.isWhitespace`
abbrev pub is_whitespace : ℕ → Bool
is_whitespace c =
    (leb 9 c && leb c 13)
    || (leb 28 c && leb c 32)
    || c == 0x1680
    || (leb 0x2000 c && leb c 0x2006)
    || (leb 0x2008 c && leb c 0x200A)
    || (leb 0x2028 c && leb c 0x2029)
    || c == 0x205F
    || c == 0x3000

-- `StringUtils.hasText(text)`
abbrev pub has_text : Option Text → Bool
has_text none = false
has_text (some t) = any (λ c. not (is_whitespace c)) t

abbrev pub too_long : Option Text → Bool
too_long none = false
too_long (some t) = ltb 5000 (length t)

-- `TextUtilsService.validateText`
unfoldable pub validate_text : Option Text → Action (Unit {0})
validate_text text = throw_if (has_text text && too_long text) (rest text_too_long)

-- The fields of `StreamableGraffitiDto` that the service reads.
pub record StreamableForm : Type 0 where
  pub text : Option Text
  pub is_private : Option Bool
  pub latitude : Option Text
  pub longitude : Option Text
  pub roll : Option Text
  pub yaw : Option Text
  pub pitch : Option Text

-- `findStreamableById`
abbrev pub find_streamable_by_id : ℕ → Action (Option Streamable)
find_streamable_by_id id = gets (λ d. find id d.streamables.rows)

abbrev pub update_streamable : ℕ → (Streamable → Streamable) → Database → Database
update_streamable id f d = record d {
  streamables = record (d.streamables) { rows = update id f d.streamables.rows };
}

-- The streamable, or the exception of every operation for one that is not there.
abbrev pub existing_streamable : ℕ → Action Streamable
existing_streamable id = do
  found ← find_streamable_by_id id
  or_throw found (rest streamable_not_found)

-- `getStreamable`
unfoldable pub get_streamable : ℕ → Action Streamable
unfolding in_transaction
get_streamable id = in_transaction (existing_streamable id)

abbrev or_false : Option Bool → Bool
or_false none = false
or_false (some b) = b

-- `new StreamableGraffiti(...)`, with its asset and its user.
abbrev pub new_streamable : StreamableForm → Text → ℕ → ℕ → Streamable
new_streamable f asset user now = record {
  user = user;
  created_on = now;
  updated_on = none;
  is_private = or_false f.is_private;
  is_flagged = false;
  is_deleted = false;
  text = f.text;
  asset = asset;
  likers = [];
  hashtags = [];
  latitude = f.latitude;
  longitude = f.longitude;
  roll = f.roll;
  yaw = f.yaw;
  pitch = f.pitch;
}

abbrev pub persist_streamable : Streamable → Database → Database
persist_streamable v d = record d {
  streamables = record {
    rows = d.streamables.rows ++ (d.streamables.next, v) ∷ [];
    next = d.streamables.next + 1;
  };
}

-- `createStreamableInTransaction`; its result is the id of the new row.
unfoldable pub create_streamable_in_transaction :
    Request → Client → StreamableForm → Text → Action ℕ
unfolding in_transaction_with_result
create_streamable_in_transaction r c f asset = do
  created ← in_transaction_with_result do
    current ← get_current_user r
    user ← find_user_by_id current
    deref user
    id ← gets (λ d. d.streamables.next)
    modify (persist_streamable (new_streamable f asset current r.now))
    let result : ℕ × ℕ = (current, id)
    pure result
  enqueue
      (add_activity created.0 (Content.create_streamable created.1) r.now c.ip_address c.user_agent)
  pure created.1

-- `createStreamableGraffiti`; `guid` is drawn for the image, which was transferred.
unfoldable pub create_streamable_graffiti : Request → Client → StreamableForm → Text → Action ℕ
unfolding create_streamable_in_transaction validate_text
create_streamable_graffiti r c f guid = do
  validate_text f.text
  id ← create_streamable_in_transaction r c f guid
  enqueue_asset guid
  pure id

-- `createStreamableGraffitiFromExternalResource`
unfoldable pub create_streamable_from_external_resource :
    Request → Client → StreamableForm → Text → Action ℕ
unfolding create_streamable_in_transaction
create_streamable_from_external_resource r c f guid = create_streamable_in_transaction r c f guid
