-- ===== src/TextUtils/Tests.antt =====
-- A text of Ann's that mentions Cat, and hashtags.
use graffi_tab_backend.Prelude.{
  suc, ◌+◌, ◌≡◌, ◌||◌, refl, none, some, List, [], ◌∷◌, ◌==◌, find, length, filter, if◌then◌else◌,
  arith,
}
use graffi_tab_backend.Prelude.Text.{Text, codes, text_eq}
use graffi_tab_backend.Model.Content.{Streamable}
use graffi_tab_backend.Backend.{Backend}
use graffi_tab_backend.Samples.{start, cat, users-IsKeyed, start-IsValid}
use graffi_tab_backend.Streamables.{new_streamable}
use graffi_tab_backend.Jobs.Delivery.{unread}
use graffi_tab_backend.TextUtils.{groups, find_all, parse_text}
use graffi_tab_backend.TextUtils.Finds.{Finds, find_all-Finds}
use graffi_tab_backend.TextUtils.Tags.{has, IsTagSet}
use graffi_tab_backend.TextUtils.Parsed.{parse_text-tags, parse_text-unread}

abbrev words : Text
words = codes "for @cat: #red, #red #blue!"

found_tags : groups b'#' words ≡ codes "red" ∷ codes "red" ∷ codes "blue" ∷ []
unfolding groups find_all
found_tags = refl

found_names : groups b'@' words ≡ codes "cat" ∷ []
unfolding groups find_all
found_names = refl

find_all-Finds_example :
    (gs : List Text) × (find_all b'#' (suc (length words)) words ≡ some gs) × Finds b'#' words gs
find_all-Finds_example = find_all-Finds b'#' (suc (length words)) words (omega arith)

abbrev post : Streamable
post =
    new_streamable
      (record {
        text = some words;
        is_private = none;
        latitude = none;
        longitude = none;
        roll = none;
        yaw = none;
        pitch = none;
      })
      (codes "a") 1 100

abbrev posted : Backend
posted = record start {
  db = record (start.db) { streamables = record { rows = (10, post) ∷ []; next = 11 } };
}

parse_text-tags_example :
    (w : Streamable) × (find 10 (parse_text 1 (some words) 10 none 100 posted).1.db.streamables.rows
      ≡ some w)
    × (has (codes "red") w.hashtags
        ≡ (has (codes "red") post.hashtags || has (codes "red") (groups b'#' words)))
    × IsTagSet w.hashtags
parse_text-tags_example =
    parse_text-tags 1 10 none 100 words (codes "red") posted {v = post} users-IsKeyed
      (start-IsValid.usernames) refl tt

parse_text-unread_example :
    unread 3 (parse_text 1 (some words) 10 none 100 posted).1.db.notifications.rows
    ≡ unread 3 posted.db.notifications.rows
      + (if 3 == 1 then 0 else length (filter (text_eq cat.username) (groups b'@' words)))
parse_text-unread_example =
    parse_text-unread 1 10 none 100 3 words posted {u = cat} {v = post} users-IsKeyed
      (start-IsValid.usernames) refl refl
