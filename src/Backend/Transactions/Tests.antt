-- ===== src/Backend/Transactions/Tests.antt =====
-- A transaction that fails.
use graffi_tab_backend.Prelude.{ℕ, refl, []}
use graffi_tab_backend.Errors.{general_error, token_not_found, rest}
use graffi_tab_backend.Backend.{Backend, Action, throw}
use graffi_tab_backend.Backend.Transactions.{in_transaction, in_transaction_with_result}
use graffi_tab_backend.Backend.Transactions.Responses.{Answers, responses}

abbrev nothing : Backend
nothing = record {
  db = record {
    users = record { rows = []; next = 1 };
    streamables = record { rows = []; next = 1 };
    comments = record { rows = []; next = 1 };
    notifications = record { rows = []; next = 1 };
    activities = record { rows = []; next = 1 };
    locations = record { rows = []; next = 1 };
    sessions = [];
  };
  mails = [];
  jobs = [];
  asset_jobs = [];
  previous_assets = [];
  store_calls = [];
}

abbrev failing : Action ℕ
failing = throw (rest token_not_found)

responses_example :
    Answers (in_transaction failing) nothing (404, token_not_found)
    × Answers (in_transaction_with_result failing) nothing (404, token_not_found)
    × Answers (in_transaction_with_result (in_transaction failing)) nothing (404, token_not_found)
    × Answers
        (in_transaction_with_result (in_transaction_with_result failing))
        nothing
        (500, general_error)
responses_example = responses failing nothing refl
