-- ===== src/Errors.antt =====
-- api/errors: the result codes with their HTTP statuses, the exceptions, and the advice that
-- turns an exception of a REST controller into a response.
pub mod Advice
use graffi_tab_backend.Prelude.{ℕ}

pub data ResultCode : Type 0 where
  result_ok : ResultCode
  unsupported_file_type invalid_token stream_could_not_be_read invalid_argument : ResultCode
  missing_argument invalid_json invalid_followee empty_mandatory_field invalid_username : ResultCode
  invalid_email username_already_in_use email_already_in_use invalid_id text_too_long : ResultCode
  user_not_logged_in user_not_owner : ResultCode
  incorrect_password maximum_login_attempts forbidden_resource : ResultCode
  external_provider_not_found external_provider_not_linked device_not_found : ResultCode
  user_not_found asset_not_found streamable_not_found comment_not_found : ResultCode
  location_not_found token_not_found : ResultCode
  token_expired user_not_in_expected_state : ResultCode
  device_already_exists external_provider_already_linked : ResultCode
  external_provider_already_linked_for_other_user : ResultCode
  general_error : ResultCode

-- `getStatusCode`
abbrev pub status_code : ResultCode → ℕ
status_code result_ok = 200
status_code user_not_logged_in = 401
status_code user_not_owner = 401
status_code incorrect_password = 403
status_code maximum_login_attempts = 403
status_code forbidden_resource = 403
status_code external_provider_not_found = 404
status_code external_provider_not_linked = 404
status_code device_not_found = 404
status_code user_not_found = 404
status_code asset_not_found = 404
status_code streamable_not_found = 404
status_code comment_not_found = 404
status_code location_not_found = 404
status_code token_not_found = 404
status_code token_expired = 406
status_code user_not_in_expected_state = 406
status_code device_already_exists = 409
status_code external_provider_already_linked = 409
status_code external_provider_already_linked_for_other_user = 409
status_code general_error = 500
status_code _ = 400

-- The exceptions that the services throw. `rest` is a `RestApiException` or a subclass of it;
-- `wrapped` is a `RuntimeException` with a cause.
pub data Failure : Type 0 where
  rest : ResultCode → Failure
  wrapped : Failure → Failure
  null_pointer number_format non_unique_result illegal_state : Failure
  argument_type_mismatch missing_json_property : Failure

pub data Result {ℓ} (A : Type ℓ) : Type ℓ where
  ok : A → Result A
  err : Failure → Result A
