-- ===== src/Streamables/Stats.antt =====
-- service/streamable/StreamableStatsService.java: the numbers of a streamable.
pub mod Counts
use graffi_tab_backend.Prelude.{
  ℕ, Bool, not, ◌&&◌, ◌==◌, contains, find, length, select, none, some,
}
use graffi_tab_backend.Errors.{null_pointer}
use graffi_tab_backend.Model.{Database}
use graffi_tab_backend.Model.Content.{Comment}
use graffi_tab_backend.Backend.{Action, pure, gets, or_throw, ◌>>=◌, ◌>>◌}
use graffi_tab_backend.Backend.Transactions.{in_transaction}
use graffi_tab_backend.Backend.Lookup.{Request, get_current_user}
use graffi_tab_backend.Streamables.{find_streamable_by_id}

pub record StreamableStats : Type 0 where
  pub comments_count : ℕ
  pub likers_count : ℕ
  pub liked_by_current_user : Bool

-- `select count(*) from s.comments where isDeleted = 'N'`
abbrev pub comments_count_of : ℕ → Database → ℕ
comments_count_of id d =
    length (select (λ _ c. c.streamable == id && not c.is_deleted) d.comments.rows)

-- `processStreamableStats`
unfoldable pub process_streamable_stats : Request → ℕ → Action StreamableStats
unfolding in_transaction
process_streamable_stats r id = in_transaction do
  current ← get_current_user r
  found ← find_streamable_by_id id
  v ← or_throw found null_pointer
  gets λ d. record {
    comments_count = comments_count_of id d;
    likers_count = length v.likers;
    liked_by_current_user = contains current v.likers;
  }
