-- ===== src/Users/Following.antt =====
-- `follow` and `unfollow` of service/user/UserService.java.
pub mod Graph
pub mod Histories
pub mod Undo
use graffi_tab_backend.Prelude.{ℕ, Bool, not, Option, [], ◌∷◌, ◌++◌, ◌==◌, contains, remove, find}
use graffi_tab_backend.Prelude.Text.{Text}
use graffi_tab_backend.Errors.{invalid_followee, user_not_found, rest}
use graffi_tab_backend.Model.Account.{User}
use graffi_tab_backend.Model.Content
use graffi_tab_backend.Backend.{
  Action, add_notification, add_activity, enqueue, pure, throw_if, when, or_throw, modify, ◌>>◌,
  ◌>>=◌,
}
use graffi_tab_backend.Backend.Transactions.{in_transaction, in_transaction_with_result}
use graffi_tab_backend.Backend.Lookup.{
  find_user_by_id, update_user, deref, Request, get_current_user,
}

-- `getFollowing().add(toFollow)`
abbrev pub add_following : ℕ → User → User
add_following id u = record u { following = u.following ++ id ∷ [] }

-- `getFollowing().remove(toUnfollow)`
abbrev pub remove_following : ℕ → User → User
remove_following id u = record u { following = remove id u.following }

-- The headers of the request that an activity keeps.
pub record Client : Type 0 where
  pub ip_address : Option Text
  pub user_agent : Option Text

-- `activityService.addFollowActivityAsync`
abbrev add_follow_activity : ℕ → ℕ → Request → Client → Action (Unit {0})
add_follow_activity user followed r c =
    enqueue
      (add_activity user (Content.ActivityKind.follow followed) r.now c.ip_address c.user_agent)

-- The transaction of `follow`: whether the user was not followed before.
abbrev follow_if_new : ℕ → ℕ → Action Bool
follow_if_new current to_follow = do
  target ← find_user_by_id to_follow
  inner ← find_user_by_id current
  or_throw target (rest user_not_found)
  user ← deref inner
  throw_if (current == to_follow) (rest invalid_followee)
  let is_new = not (contains to_follow user.following)
  when is_new (modify (update_user current (add_following to_follow)))
  pure is_new

-- `follow`
unfoldable pub follow : Request → Client → ℕ → Action ℕ
unfolding in_transaction_with_result
follow r c to_follow = do
  current ← get_current_user r
  followed ← in_transaction_with_result (follow_if_new current to_follow)
  when followed (
      enqueue (add_notification to_follow (Content.NotificationKind.follow current) r.now)
      >> add_follow_activity current to_follow r c)
  pure to_follow

-- `unfollow`
unfoldable pub unfollow : Request → ℕ → Action ℕ
unfolding in_transaction
unfollow r to_unfollow = in_transaction do
  target ← find_user_by_id to_unfollow
  or_throw target (rest user_not_found)
  id ← get_current_user r
  inner ← find_user_by_id id
  deref inner
  modify (update_user id (remove_following to_unfollow))
  pure to_unfollow
