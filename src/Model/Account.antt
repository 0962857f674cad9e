-- ===== src/Model/Account.antt =====
-- persistence/model/user/User.java, with the devices and providers that it owns.
-- The many-to-many lists `following` and `followers` are the two sides of one join table, kept
-- here as the ids in `following`.
use graffi_tab_backend.Prelude.{
  ℕ, Bool, true, false, Option, none, some, List, [], ◌∷◌, if◌then◌else◌,
}
use graffi_tab_backend.Prelude.Text.{Text}

pub data AccountStatus : Type 0 where
  pending_activation active suspended reset_password : AccountStatus

abbrev pub status_eq : AccountStatus → AccountStatus → Bool
status_eq pending_activation pending_activation = true
status_eq active active = true
status_eq suspended suspended = true
status_eq reset_password reset_password = true
status_eq _ _ = false

pub data ExternalProviderType : Type 0 where
  facebook twitter google : ExternalProviderType

abbrev pub type_eq : ExternalProviderType → ExternalProviderType → Bool
type_eq facebook facebook = true
type_eq twitter twitter = true
type_eq google google = true
type_eq _ _ = false

pub record ExternalProvider : Type 0 where
  pub external_provider_type : ExternalProviderType
  pub external_user_id : Text
  pub access_token : Text

pub data OsType : Type 0 where
  android ios : OsType

pub record Device : Type 0 where
  pub os_type : OsType
  pub token : Text

-- A value of the metadata map. `millis n` is the decimal text of `n`, which
-- `Long.parseLong` reads back.
pub data MetadataValue : Type 0 where
  text : Text → MetadataValue
  millis : ℕ → MetadataValue

pub data MetadataKey : Type 0 where
  activation_token activation_token_date : MetadataKey
  reset_password_token reset_password_token_date : MetadataKey

abbrev pub key_eq : MetadataKey → MetadataKey → Bool
key_eq activation_token activation_token = true
key_eq activation_token_date activation_token_date = true
key_eq reset_password_token reset_password_token = true
key_eq reset_password_token_date reset_password_token_date = true
key_eq _ _ = false

abbrev pub Metadata : Type 0
Metadata = List (MetadataKey × MetadataValue)

-- `metadataItems.get(key)`
abbrev pub get : MetadataKey → Metadata → Option MetadataValue
get k [] = none
get k ((j, v) ∷ m) = if key_eq k j then some v else get k m

-- `metadataItems.put(key, value)`
abbrev pub put : MetadataKey → MetadataValue → Metadata → Metadata
put k v [] = (k, v) ∷ []
put k v ((j, w) ∷ m) = if key_eq k j then (j, v) ∷ m else (j, w) ∷ put k v m

pub record User : Type 0 where
  pub guid : Text
  pub username : Text
  pub first_name : Text
  pub last_name : Text
  pub password : Text
  pub email : Text
  pub website : Option Text
  pub about : Option Text
  pub created_on : ℕ
  pub updated_on : Option ℕ
  pub failed_logins : Option ℕ
  pub account_status : AccountStatus
  pub is_recommendation : Bool
  pub recommendation_rank : ℕ
  pub avatar_asset : Option Text
  pub cover_asset : Option Text
  pub following : List ℕ
  pub devices : List Device
  pub external_providers : List ExternalProvider
  pub metadata_items : Metadata
