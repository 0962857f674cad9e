-- ===== src/Samples.antt =====
-- A few accounts, as the tests of the components need them.
use graffi_tab_backend.Prelude.{ℕ, false, none, some, List, [], ◌∷◌, IsKeyed, arith}
use graffi_tab_backend.Prelude.Text.{Text, codes, text_eq}
use graffi_tab_backend.Model.Account.{
  User, AccountStatus, active, pending_activation, reset_password, Metadata, text, millis,
  activation_token, activation_token_date, reset_password_token, reset_password_token_date,
}
use graffi_tab_backend.Backend.{Backend}
use graffi_tab_backend.Backend.Lookup.{Request}
use graffi_tab_backend.Users.Registration.{PasswordEncoder}
use graffi_tab_backend.Users.Following.{Client}
use graffi_tab_backend.Users.Following.Graph.{IsGraph}
use graffi_tab_backend.Users.Invariant.{IsValid}

abbrev pub encoder : PasswordEncoder
encoder = record { encode = λ salt p. p; accepts = text_eq }

abbrev pub account : Text → AccountStatus → Metadata → List ℕ → User
account name status metadata following = record {
  guid = name;
  username = name;
  first_name = name;
  last_name = name;
  password = codes "secret";
  email = name;
  website = none;
  about = none;
  created_on = 0;
  updated_on = none;
  failed_logins = none;
  account_status = status;
  is_recommendation = false;
  recommendation_rank = 0;
  avatar_asset = none;
  cover_asset = none;
  following = following;
  devices = [];
  external_providers = [];
  metadata_items = metadata;
}

-- Ann follows Bob, who has yet to activate; Cat asked for a reset.
abbrev pub ann : User
ann = account (codes "ann") active [] (2 ∷ [])

abbrev pub bob : User
bob =
    account (codes "bob") pending_activation
      ((activation_token, text (codes "t")) ∷ (activation_token_date, millis 1000) ∷ []) []

abbrev pub cat : User
cat =
    account (codes "cat") reset_password
      ((reset_password_token, text (codes "r")) ∷ (reset_password_token_date, millis 1000) ∷ []) []

abbrev pub users : List (ℕ × User)
users = (1, ann) ∷ (2, bob) ∷ (3, cat) ∷ []

abbrev pub start : Backend
start = record {
  db = record {
    users = record { rows = users; next = 4 };
    streamables = record { rows = []; next = 1 };
    comments = record { rows = []; next = 1 };
    notifications = record { rows = []; next = 1 };
    activities = record { rows = []; next = 1 };
    locations = record { rows = []; next = 1 };
    sessions = record { session_id = codes "s"; content = []; created_on = 0; user = 3 } ∷ [];
  };
  mails = [];
  jobs = [];
  asset_jobs = [];
  previous_assets = [];
  store_calls = [];
}

abbrev pub as_ann : Request
as_ann = record { run_as = none; cached = none; principal = some 1; session_id = none; now = 2000 }

abbrev pub client : Client
client = record { ip_address = none; user_agent = none }

pub users-IsKeyed : IsKeyed users
users-IsKeyed = ground arith

pub users-IsGraph : IsGraph users
users-IsGraph = ground arith

pub start-IsValid : IsValid start.db.users
start-IsValid = record {
  keyed = users-IsKeyed;
  below = ground arith;
  usernames = ground arith;
  emails = ground arith;
  graph = users-IsGraph;
}
