-- ===== src/Users/Invariant.antt =====
-- What holds of the table of users between two operations.
pub mod Distinct
pub mod Registering
pub mod Steps
use graffi_tab_backend.Prelude.{Table, IsKeyed, Below}
use graffi_tab_backend.Model.Account.{User}
use graffi_tab_backend.Users.Following.Graph.{IsGraph}
use Distinct.{IsDistinct}

pub record IsValid (t : Table User) : Type 0 where
  -- An id is the id of one row, and was handed out already.
  pub keyed : IsKeyed t.rows
  pub below : Below t.next t.rows
  -- No two accounts share a username or an e-mail address.
  pub usernames : IsDistinct (λ u. u.username) t.rows
  pub emails : IsDistinct (λ u. u.email) t.rows
  -- Nobody follows themselves, or the same user twice.
  pub graph : IsGraph t.rows
