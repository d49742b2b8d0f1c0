-- ===== src/Tools/Contracts.antt =====
-- contracts/adapter.py: the statuses of adapters, and the check of what they return. A field of
-- another type is `none`; the pattern of secrets and `json.dumps` are parameters.
use Prim.Native.String.{String}
use world_class_seo_agent_sy.Prelude.{
  Bool, true, not, List, [], ◌∷◌, any, contains, Option, none, some, Result, ok, err, ◌>>=◌, ◌>>◌,
  raise_if,
}
use world_class_seo_agent_sy.Prelude.Strings.{blank}

abbrev pub canonical_adapter_statuses : List String
canonical_adapter_statuses =
    "ok" ∷ "complete" ∷ "success" ∷ "needs-review" ∷ "partial" ∷ "empty" ∷ "not_found"
    ∷ "not_configured" ∷ "invalid" ∷ "invalid_response" ∷ "blocked" ∷ "failed" ∷ "unauthorized"
    ∷ "rate_limited" ∷ []

abbrev pub success_adapter_statuses : List String
success_adapter_statuses = "ok" ∷ "complete" ∷ "success" ∷ []

abbrev pub partial_adapter_statuses : List String
partial_adapter_statuses = "needs-review" ∷ "partial" ∷ []

abbrev pub missing_adapter_statuses : List String
missing_adapter_statuses = "empty" ∷ "not_found" ∷ "not_configured" ∷ []

abbrev pub invalid_adapter_statuses : List String
invalid_adapter_statuses = "invalid" ∷ "invalid_response" ∷ []

abbrev pub blocking_adapter_statuses : List String
blocking_adapter_statuses = "blocked" ∷ "failed" ∷ "unauthorized" ∷ "rate_limited" ∷ []

pub record AdapterResult (Data : Type 0) : Type 0 where
  pub status : String
  pub content : Data
  pub warnings : List String

-- What an adapter returns: an `AdapterResult`, or anything else.
pub data RawResult (Data : Type 0) : Type 0 where
  no_result : RawResult Data
  raw_result :
      (source status : Option String) → Data → (warnings : Option (List String)) → RawResult Data

pub data ContractError : Type 0 where
  not_a_result bad_source bad_status unsupported_status bad_warnings secret_warnings bad_data :
      ContractError

-- The class and the text of the exception; the text of an unsupported status also quotes it.
abbrev pub contract_message : ContractError → String
contract_message not_a_result = "TypeError: adapter fetch() must return AdapterResult"
contract_message bad_source = "TypeError: adapter result source must be a non-empty string"
contract_message bad_status = "TypeError: adapter result status must be a non-empty string"
contract_message unsupported_status = "ValueError: unsupported adapter result status"
contract_message bad_warnings = "TypeError: adapter result warnings must be a list of strings"
contract_message secret_warnings =
    "ValueError: adapter result warnings must not contain credential material"
contract_message bad_data = "TypeError: adapter result data must be finite JSON-serializable data"

abbrev pub blank_or_none : Option String → Bool
blank_or_none none = true
blank_or_none (some s) = blank s

module _ {Data : Type 0} (is_secret : String → Bool) (serializable : Data → Bool) where
  abbrev pub checked_warnings :
      String → Data → Option (List String) → Result ContractError (AdapterResult Data)
  checked_warnings status content none = err bad_warnings
  checked_warnings status content (some warnings) = do
    raise_if (any is_secret warnings) secret_warnings
    raise_if (not (serializable content)) bad_data
    ok (record { status = status; content = content; warnings = warnings })

  abbrev pub checked_status :
      Option String → Data → Option (List String) → Result ContractError (AdapterResult Data)
  checked_status none content warnings = err bad_status
  checked_status (some status) content warnings = do
    raise_if (blank status) bad_status
    raise_if (not (contains canonical_adapter_statuses status)) unsupported_status
    checked_warnings status content warnings

  unfoldable pub validate_adapter_result :
      RawResult Data → Result ContractError (AdapterResult Data)
  validate_adapter_result no_result = err not_a_result
  validate_adapter_result (raw_result source status content warnings) =
      raise_if (blank_or_none source) bad_source >>= λ u. checked_status status content warnings
