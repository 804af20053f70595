-- ===== src/Error.antt =====
-- include/libce/error.h and src/error.c: the error codes and their names.
use libce.Base.{ℕ, List, [], ◌∷◌, ltb, if◌then◌else◌}
use libce.Base.Lists.{length, get_or}
use Prim.Native.String.{String}

pub data OlmErrorCode : Type 0 where
  success : OlmErrorCode
  not_enough_random : OlmErrorCode
  output_buffer_too_small : OlmErrorCode
  bad_message_version : OlmErrorCode
  bad_message_format : OlmErrorCode
  bad_message_mac : OlmErrorCode
  bad_message_key_id : OlmErrorCode
  invalid_base64 : OlmErrorCode
  bad_account_key : OlmErrorCode
  unknown_pickle_version : OlmErrorCode
  corrupted_pickle : OlmErrorCode
  bad_session_key : OlmErrorCode
  unknown_message_index : OlmErrorCode
  bad_legacy_account_pickle : OlmErrorCode
  bad_signature : OlmErrorCode
  input_buffer_too_small : OlmErrorCode
  sas_their_key_not_set : OlmErrorCode
  pickle_extra_data : OlmErrorCode
  unseeded_account : OlmErrorCode

-- The value of the enumerator.
unfoldable pub code : OlmErrorCode → ℕ
code success = 0
code not_enough_random = 1
code output_buffer_too_small = 2
code bad_message_version = 3
code bad_message_format = 4
code bad_message_mac = 5
code bad_message_key_id = 6
code invalid_base64 = 7
code bad_account_key = 8
code unknown_pickle_version = 9
code corrupted_pickle = 10
code bad_session_key = 11
code unknown_message_index = 12
code bad_legacy_account_pickle = 13
code bad_signature = 14
code input_buffer_too_small = 15
code sas_their_key_not_set = 16
code pickle_extra_data = 17
code unseeded_account = 18

unfoldable pub errors : List String
errors =
    "SUCCESS" ∷ "NOT_ENOUGH_RANDOM" ∷ "OUTPUT_BUFFER_TOO_SMALL" ∷ "BAD_MESSAGE_VERSION"
    ∷ "BAD_MESSAGE_FORMAT" ∷ "BAD_MESSAGE_MAC" ∷ "BAD_MESSAGE_KEY_ID" ∷ "INVALID_BASE64"
    ∷ "BAD_ACCOUNT_KEY" ∷ "UNKNOWN_PICKLE_VERSION" ∷ "CORRUPTED_PICKLE" ∷ "BAD_SESSION_KEY"
    ∷ "UNKNOWN_MESSAGE_INDEX" ∷ "BAD_LEGACY_ACCOUNT_PICKLE" ∷ "BAD_SIGNATURE"
    ∷ "OLM_INPUT_BUFFER_TOO_SMALL" ∷ "OLM_SAS_THEIR_KEY_NOT_SET" ∷ "OLM_PICKLE_EXTRA_DATA"
    ∷ "OLM_UNSEEDED_ACCOUNT" ∷ []

unfoldable pub error_to_string : ℕ → String
unfolding errors
error_to_string error =
    if ltb error (length errors) then get_or errors error "UNKNOWN_ERROR" else "UNKNOWN_ERROR"
