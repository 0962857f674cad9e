-- ===== src/Model.antt =====
-- persistence/model: the entities as records, and the database that holds their tables.
-- References between entities are ids; dates are milliseconds; an unset field is `none`.
pub mod Account
pub mod Content
use graffi_tab_backend.Prelude.{ℕ, List, Table}
use graffi_tab_backend.Prelude.Text.{Text}
use Account.{User}
use Content.{Streamable, Comment, Notification, Activity, Location}

-- `UserSession`
pub record UserSession : Type 0 where
  pub session_id : Text
  pub content : Text
  pub created_on : ℕ
  pub user : ℕ

pub record Database : Type 0 where
  pub users : Table User
  pub streamables : Table Streamable
  pub comments : Table Comment
  pub notifications : Table Notification
  pub activities : Table Activity
  pub locations : Table Location
  pub sessions : List UserSession
