-- ===== src/Streamables/Reactions.antt =====
-- `like`, `unlike` and `flag` of StreamableService.
pub mod Likes
pub mod Flags
use graffi_tab_backend.Prelude.{
  ℕ, ◌+◌, Bool, true, not, ◌&&◌, none, some, [], ◌∷◌, ◌++◌, ◌==◌, contains, remove, find, update,
}
use graffi_tab_backend.Model.Content.{Streamable}
use graffi_tab_backend.Model.Content
use graffi_tab_backend.Backend.{
  Backend, Action, add_notification, add_activity, send, enqueue, pure, when, modify, ◌>>◌, ◌>>=◌,
}
use graffi_tab_backend.Backend
use graffi_tab_backend.Backend.Transactions.{in_transaction, in_transaction_with_result}
use graffi_tab_backend.Backend.Lookup.{find_user_by_id, Request, get_current_user}
use graffi_tab_backend.Users.Following.{Client}
use graffi_tab_backend.Streamables.{update_streamable, existing_streamable}

-- `getLikers().add(user)`; a null element is not stored.
abbrev pub add_liker : ℕ → Streamable → Streamable
add_liker user v = record v { likers = v.likers ++ user ∷ [] }

-- `getLikers().remove(user)`
abbrev pub remove_liker : ℕ → Streamable → Streamable
remove_liker user v = record v { likers = remove user v.likers }

-- The transaction of `like`: the owner, and whether the like is new.
abbrev like_if_new : ℕ → ℕ → Action (ℕ × Bool)
like_if_new current id = do
  streamable ← existing_streamable id
  user ← find_user_by_id current
  let is_new = not (contains current streamable.likers)
  elim user [
    | none ↦ pure (streamable.user, is_new)
    | some _ ↦
        when is_new (modify (update_streamable id (add_liker current)))
        >> pure (streamable.user, is_new)
  ]

-- `like`
unfoldable pub like : Request → Client → ℕ → Action ℕ
unfolding in_transaction_with_result
like r c id = do
  current ← get_current_user r
  liked ← in_transaction_with_result (like_if_new current id)
  when (liked.1 && not (liked.0 == current))
      (enqueue (add_notification liked.0 (Content.NotificationKind.like current id) r.now))
  when liked.1 (
      enqueue (add_activity current (Content.ActivityKind.like id) r.now c.ip_address c.user_agent))
  pure id

-- `unlike`
unfoldable pub unlike : Request → ℕ → Action ℕ
unfolding in_transaction
unlike r id = in_transaction do
  existing_streamable id
  current ← get_current_user r
  modify (update_streamable id (remove_liker current))
  pure id

-- The transaction of `flag`: whether the streamable was not flagged before.
abbrev flag_if_new : ℕ → Action Bool
flag_if_new id = do
  streamable ← existing_streamable id
  let is_new = not streamable.is_flagged
  when is_new (modify (update_streamable id (λ v. record v { is_flagged = true })))
  pure is_new

-- `flag`
unfoldable pub flag : ℕ → Action ℕ
unfolding in_transaction_with_result
flag id = do
  flagged ← in_transaction_with_result (flag_if_new id)
  when flagged (send (Backend.flag id))
  pure id
