-- ===== src/Backend/Transactions/Responses.antt =====
-- What a client sees of an exception that leaves transactions.
use graffi_tab_backend.Prelude.{ℕ, ◌≡◌, refl, arith}
use graffi_tab_backend.Errors.{ResultCode, general_error, status_code, Failure, rest, wrapped, err}
use graffi_tab_backend.Errors.Advice.{respond, general_exception, api_exception}
use graffi_tab_backend.Backend.{Backend, Action}
use graffi_tab_backend.Backend.Transactions.{in_transaction, in_transaction_with_result}

-- The action throws, leaves the database as it was, and the client gets this response.
abbrev pub Answers : {A : Type 0} → Action A → Backend → ℕ × ResultCode → Type 0
Answers m s response =
    (f : Failure) × ((m s).0 ≡ err f) × (respond f ≡ response) × ((m s).1.db ≡ s.db)

-- Where the body of a transaction throws a REST exception, the database is rolled back, and the
-- client gets the code and the status of the exception: from a transaction with a result or
-- without, and from one without inside one with. From a transaction with a result inside another
-- such, the client gets a general error with the status 500.
pub responses :
    {A : Type 0} (m : Action A) (s : Backend) {code : ResultCode}
    → (m s).0 ≡ err (rest code)
    → Answers (in_transaction m) s (status_code code, code)
      × Answers (in_transaction_with_result m) s (status_code code, code)
      × Answers (in_transaction_with_result (in_transaction m)) s (status_code code, code)
      × Answers (in_transaction_with_result (in_transaction_with_result m)) s (500, general_error)
unfolding in_transaction_with_result in_transaction respond general_exception api_exception
responses m s {code} e = (
  (rest code, ground arith, refl, ground arith),
  (wrapped (rest code), ground arith, refl, ground arith),
  (wrapped (rest code), ground arith, refl, ground arith),
  (wrapped (wrapped (rest code)), ground arith, refl, ground arith),
)
