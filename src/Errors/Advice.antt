-- ===== src/Errors/Advice.antt =====
-- GeneralErrorHandlingAdvice: the HTTP status and result code for each exception.
use graffi_tab_backend.Prelude.{ℕ}
use graffi_tab_backend.Errors.{
  ResultCode, invalid_argument, missing_argument, general_error, status_code, Failure, rest,
  wrapped, argument_type_mismatch, missing_json_property,
}

-- `apiException`
unfoldable pub api_exception : ResultCode → ℕ × ResultCode
api_exception code = (status_code code, code)

-- `generalException`: it looks one cause deep.
unfoldable pub general_exception : Failure → ℕ × ResultCode
general_exception argument_type_mismatch = (400, invalid_argument)
general_exception missing_json_property = (400, missing_argument)
general_exception (wrapped (rest code)) = (status_code code, code)
general_exception _ = (500, general_error)

-- The more specific handler is chosen for a `RestApiException`.
unfoldable pub respond : Failure → ℕ × ResultCode
unfolding api_exception general_exception
respond (rest code) = api_exception code
respond failure = general_exception failure
