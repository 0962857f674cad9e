-- ===== src/TextUtils.antt =====
-- service/TextUtilsService.java: the mentions and the hashtags in a text.
pub mod Finds
pub mod Tags
pub mod Mentions
pub mod Parsed
pub mod Swallowed
mod Tests
use graffi_tab_backend.Prelude.{
  ℕ, zero, suc, Bool, true, false, not, ◌&&◌, ◌||◌, Option, none, some, List, [], ◌∷◌, ◌++◌, ◌==◌,
  leb, any, length, if◌then◌else◌,
}
use graffi_tab_backend.Prelude.Text.{Text, text_eq, is_empty}
use graffi_tab_backend.Errors.{ok}
use graffi_tab_backend.Model.Account.{User}
use graffi_tab_backend.Model.Content
use graffi_tab_backend.Backend.{Action, enqueue, pure, modify, when, ◌>>◌, ◌>>=◌}
use graffi_tab_backend.Backend
use graffi_tab_backend.Backend.Transactions.{in_transaction}
use graffi_tab_backend.Backend.Lookup.{unique_user, deref, Request, get_current_user}
use graffi_tab_backend.Streamables.{find_streamable_by_id, update_streamable}
use graffi_tab_backend.Notifications.{add_notification_to_user}

-- `\w`
abbrev pub is_word : ℕ → Bool
is_word c =
    leb b'a' c && leb c b'z' || leb b'A' c && leb c b'Z' || leb b'0' c && leb c b'9' || c == b'_'

abbrev pub same : Bool → Bool → Bool
same true b = b
same false b = not b

-- The longest start of the text of code units that are all in `\w`, or all not, and its rest.
abbrev pub run_of : Bool → Text → Text × Text
run_of b [] = ([], [])
run_of b (c ∷ t) = if same b (is_word c) then (c ∷ (run_of b t).0, (run_of b t).1) else ([], c ∷ t)

-- Group 1 of `(\w+|\W+)` at the start of the text, and what follows; empty where none matches.
abbrev pub group : Text → Text × Text
group [] = ([], [])
group (c ∷ t) = run_of (is_word c) (c ∷ t)

-- `while (matcher.find()) matcher.group(1)` for the pattern of a mark and the group; `none` means
-- that the fuel ran out.
pub find_all : ℕ → ℕ → Text → Option (List Text)
find_all mark zero t = none
find_all mark (suc fuel) [] = some []
find_all mark (suc fuel) (c ∷ t) =
    let matched : Option (List Text) = elim (find_all mark fuel (group t).1) [
      | none ↦ none
      | some gs ↦ some ((group t).0 ∷ gs)
    ] in
    let skipped = find_all mark fuel t in
    if c == mark && not (is_empty (group t).0) then matched else skipped

-- The groups in the text, with enough fuel.
unfoldable pub groups : ℕ → Text → List Text
unfolding find_all
groups mark t = elim (find_all mark (suc (length t)) t) [ none ↦ [] | some gs ↦ gs ]

-- `findByUsername`
abbrev pub find_by_username : Text → Action (Option (ℕ × User))
find_by_username name = unique_user (λ _ u. text_eq u.username name)

-- `addMentionNotification`, on the same thread, for a user other than the current one.
abbrev mention_found : ℕ → ℕ → Option ℕ → ℕ → Option (ℕ × User) → Action (Unit {0})
mention_found current streamable comment now none = pure tt
mention_found current streamable comment now (some (id, u)) =
    when (not (id == current))
      (add_notification_to_user id (Content.mention current streamable comment) now)

-- A round of the loop for the mentions.
unfoldable pub parse_mention : ℕ → ℕ → Option ℕ → ℕ → Text → Action (Unit {0})
unfolding in_transaction add_notification_to_user
parse_mention current streamable comment now match =
    in_transaction
      do found ← find_by_username match; mention_found current streamable comment now found

-- `hashtagExistsForStreamable`
abbrev pub hashtag_exists_for_streamable : Text → ℕ → Action Bool
hashtag_exists_for_streamable tag streamable = do
  found ← find_streamable_by_id streamable
  elim found [ none ↦ pure false | some v ↦ pure (any (λ h. text_eq h tag) v.hashtags) ]

abbrev pub add_hashtag : Text → Content.Streamable → Content.Streamable
add_hashtag tag v = record v { hashtags = v.hashtags ++ tag ∷ [] }

-- A round of the loop for the hashtags.
unfoldable pub parse_hashtag : ℕ → Text → Action (Unit {0})
unfolding in_transaction
parse_hashtag streamable match = in_transaction do
  exists ← hashtag_exists_for_streamable match streamable
  when (not exists) do
    inner ← find_streamable_by_id streamable
    deref inner
    modify (update_streamable streamable (add_hashtag match))

abbrev pub for_each : (Text → Action (Unit {0})) → List Text → Action (Unit {0})
for_each f [] = pure tt
for_each f (g ∷ gs) = f g >> for_each f gs

-- `catch (Throwable t) { log.error(...); }`
abbrev caught : Action (Unit {0}) → Action (Unit {0})
caught m s = (ok tt, (m s).1)

-- `parseText`; the matcher of a null text throws.
unfoldable pub parse_text : ℕ → Option Text → ℕ → Option ℕ → ℕ → Action (Unit {0})
parse_text current text streamable comment now = caught do
  t ← deref text
  for_each (parse_mention current streamable comment now) (groups b'@' t)
  for_each (parse_hashtag streamable) (groups b'#' t)

-- `parseCommentForSpecialSymbols`; the job is taken to run at the time of the request.
unfoldable pub parse_comment_for_special_symbols : Request → ℕ → Text → ℕ → Action (Unit {0})
parse_comment_for_special_symbols r comment text streamable = do
  current ← get_current_user r
  enqueue (Backend.parse_text current (some text) streamable (some comment) r.now)

-- `parseStreamableTextForSpecialSymbols`
unfoldable pub parse_streamable_text_for_special_symbols :
    Request → ℕ → Option Text → Action (Unit {0})
parse_streamable_text_for_special_symbols r streamable text = do
  current ← get_current_user r
  enqueue (Backend.parse_text current text streamable none r.now)
