-- ===== src/Comments/Tests.antt =====
-- A comment of Ann's on a streamable of Bob's.
use graffi_tab_backend.Prelude.{◌≡◌, ◌+◌, ◌==◌, refl, none, [], ◌∷◌, length, if◌then◌else◌}
use graffi_tab_backend.Prelude.Text.{codes}
use graffi_tab_backend.Errors.{ok}
use graffi_tab_backend.Backend.{Backend}
use graffi_tab_backend.Backend.Transactions.{in_transaction, in_transaction_with_result}
use graffi_tab_backend.Backend.Lookup.{current_id}
use graffi_tab_backend.Samples.{start, as_ann}
use graffi_tab_backend.Streamables.{new_streamable, validate_text}
use graffi_tab_backend.Comments.{comments_of, post_comment, delete_comment}
use graffi_tab_backend.Comments.Lists.{delete-post_comment}

abbrev shared : Backend
shared = record start {
  db = record (start.db) {
    streamables = record {
      rows =
          (
            11,
            new_streamable
                (record {
                  text = none;
                  is_private = none;
                  latitude = none;
                  longitude = none;
                  roll = none;
                  yaw = none;
                  pitch = none;
                })
                (codes "b") 2 200,
          )
          ∷ [];
      next = 12;
    };
  };
}

abbrev commented : Backend
commented = (post_comment as_ann 11 (codes "wow") shared).1

delete-post_comment_example :
    (length (comments_of 11 commented.db) ≡ (
      if 11 == 11
      then length (comments_of 11 shared.db) + 1
      else length (comments_of 11 shared.db)))
    × ((delete_comment as_ann 11 1 commented).0 ≡ ok tt)
    × (comments_of 11 (delete_comment as_ann 11 1 commented).1.db ≡ comments_of 11 shared.db)
unfolding post_comment in_transaction_with_result in_transaction validate_text current_id
delete-post_comment_example =
    delete-post_comment as_ann 11 11 1 1 (codes "wow") shared commented tt refl refl
