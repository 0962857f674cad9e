-- ===== src/Model/Content.antt =====
-- persistence/model/streamable, Comment.java, notification and activity. A subclass of
-- `Notification` or `Activity` is a constructor with the subclass's own fields.
use graffi_tab_backend.Prelude.{ℕ, Bool, Option, List}
use graffi_tab_backend.Prelude.Text.{Text}

-- `StreamableGraffiti`, the one subclass. A coordinate is a `Double`, kept as the text that the
-- request gave for it: the operations modelled only move it.
pub record Streamable : Type 0 where
  pub user : ℕ
  pub created_on : ℕ
  pub updated_on : Option ℕ
  pub is_private : Bool
  pub is_flagged : Bool
  pub is_deleted : Bool
  pub text : Option Text
  pub asset : Text
  pub likers : List ℕ
  pub hashtags : List Text
  pub latitude : Option Text
  pub longitude : Option Text
  pub roll : Option Text
  pub yaw : Option Text
  pub pitch : Option Text

pub record Comment : Type 0 where
  pub streamable : ℕ
  pub user : ℕ
  pub text : Text
  pub created_on : ℕ
  pub updated_on : Option ℕ
  pub is_deleted : Bool

pub data NotificationKind : Type 0 where
  welcome : NotificationKind
  follow : ℕ → NotificationKind
  like : ℕ → ℕ → NotificationKind
  comment : ℕ → ℕ → ℕ → NotificationKind
  mention : ℕ → ℕ → Option ℕ → NotificationKind

-- `receiver` is the user whose `notifications` list holds the row.
pub record Notification : Type 0 where
  pub receiver : ℕ
  pub kind : NotificationKind
  pub created_on : ℕ
  pub is_read : Bool

pub data ActivityKind : Type 0 where
  create_streamable : ℕ → ActivityKind
  follow : ℕ → ActivityKind
  like : ℕ → ActivityKind
  comment : ℕ → ℕ → ActivityKind

pub record Activity : Type 0 where
  pub user : ℕ
  pub kind : ActivityKind
  pub created_on : ℕ
  pub ip_address : Option Text
  pub user_agent : Option Text

-- A user's place. The columns may not be null; a coordinate is kept as its text, as above.
pub record Location : Type 0 where
  pub user : ℕ
  pub address : Text
  pub latitude : Text
  pub longitude : Text
  pub created_on : ℕ
  pub updated_on : Option ℕ
