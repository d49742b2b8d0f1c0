-- ===== src/Tools/Dispatch.antt =====
-- `ToolDispatcher` of runtime/tools.py. What becomes of the call of an adapter in its thread is
-- given as `Fetched`; times are in milliseconds, and a telemetry event keeps what does not come
-- from the clock.
use Prim.Native.String.{String, ◌++◌ as append}
use world_class_seo_agent_sy.Prelude.{
  ℕ, Bool, true, false, not, ◌&&◌, ◌||◌, leb, List, [], ◌∷◌, ◌++◌, all, length, contains, drop,
  Option, none, some, Result, ok, err, ◌>>◌, raise_if, ◌==◌, if◌then◌else◌,
}
use world_class_seo_agent_sy.Prelude.Strings.{blank, upper, prefix}
use world_class_seo_agent_sy.Runner.Session.{ToolResult}
use world_class_seo_agent_sy.Tools.Contracts.{
  AdapterResult, RawResult, ContractError, contract_message, success_adapter_statuses,
  partial_adapter_statuses, missing_adapter_statuses, invalid_adapter_statuses,
  blocking_adapter_statuses, validate_adapter_result,
}
use world_class_seo_agent_sy.Tools.Access.{
  Timeout, default_timeout, out_of_range, millis, ToolRequest, Surroundings, Refusal, fail_state,
  preflight_access,
}

-- How the wait for an adapter ends.
pub data Fetched (Data : Type 0) : Type 0 where
  returned : RawResult Data → Fetched Data
  adapter_not_configured : (type_name message : String) → Fetched Data
  timed_out cancelled : Fetched Data
  raised : (message : String) → Fetched Data

pub record TelemetryEvent : Type 0 where
  pub operation : String
  pub status : String
  pub evidence_state : Option String
  pub required : Bool

pub record ToolDispatcher : Type 0 where
  pub adapters : List String
  pub max_telemetry_events : ℕ
  pub default_timeout_ms : ℕ
  pub telemetry : List TelemetryEvent

pub record ToolDispatchResult (Data : Type 0) : Type 0 where
  pub result : ToolResult
  pub content : Option Data
  pub warnings : List String
  pub error_type : Option String
  pub sanitized_error : Option String

pub data DispatcherError : Type 0 where
  bad_event_limit bad_default_timeout bad_adapter_name : DispatcherError

abbrev pub in_range : ℕ → Bool
in_range timeout = leb 100 timeout && leb timeout 600000

unfoldable pub new_dispatcher : List String → ℕ → ℕ → Result DispatcherError ToolDispatcher
new_dispatcher adapters max_events timeout = do
  raise_if (not (leb 1 max_events && leb max_events 100000)) bad_event_limit
  raise_if (not (in_range timeout)) bad_default_timeout
  raise_if (not (all (λ name. not (blank name)) adapters)) bad_adapter_name
  ok (record {
    adapters = adapters;
    max_telemetry_events = max_events;
    default_timeout_ms = timeout;
    telemetry = [];
  })

unfoldable pub adapter_evidence_state : String → Bool → String
adapter_evidence_state status required =
    if contains success_adapter_statuses status
    then "AVAILABLE"
    else if contains invalid_adapter_statuses status
    then "INVALID"
    else if contains missing_adapter_statuses status
    then "MISSING"
    else if required
        && (contains partial_adapter_statuses status || contains blocking_adapter_statuses status)
    then "BLOCKED"
    else if contains blocking_adapter_statuses status
    then "INVALID"
    else "PARTIAL"

-- `_record`
unfoldable pub record_event : TelemetryEvent → ToolDispatcher → ToolDispatcher
record_event event d =
    let kept =
      if leb d.max_telemetry_events (length d.telemetry) then drop 1 d.telemetry else d.telemetry in
    record d { telemetry = kept ++ event ∷ [] }

abbrev pub is_valid_timeout : Timeout → Bool
is_valid_timeout default_timeout = true
is_valid_timeout out_of_range = false
is_valid_timeout (millis timeout) = in_range timeout

-- The timeout that a valid request runs under.
abbrev pub timeout_ms : ℕ → Timeout → ℕ
timeout_ms default_ms (millis timeout) = timeout
timeout_ms default_ms default_timeout = default_ms
timeout_ms default_ms out_of_range = default_ms

-- Refused, cancelled, or a result that was validated.
pub data Verdict (Data : Type 0) : Type 0 where
  refused : Refusal → Verdict Data
  dropped : Verdict Data
  accepted : AdapterResult Data → Verdict Data

module _ {Data : Type 0} (s : Surroundings) (is_secret : String → Bool)
    (serializable : Data → Bool) where
  abbrev pub refusal : ToolRequest → String → String → String → String → Verdict Data
  refusal request status error_type message otherwise = refused (record {
    status = status;
    error_type = error_type;
    message = message;
    evidence_state = fail_state s request otherwise;
  })

  abbrev pub validated : ToolRequest → Result ContractError (AdapterResult Data) → Verdict Data
  validated request (ok result) = accepted result
  validated request (err e) =
      refusal request "FAILED" "InternalAdapterError" (contract_message e) "INVALID"

  abbrev pub indeterminate_timeout_message : String → ℕ → String
  indeterminate_timeout_message tool timeout = append "Tool " (
      append tool (
        append " exceeded its " (
          append (s.format_seconds timeout)
            "-second response deadline; thread-backed work may still be running, so side-effect outcome is unknown.")))

  abbrev pub fetched_verdict : ToolRequest → ℕ → Fetched Data → Verdict Data
  fetched_verdict request timeout (returned raw) =
      validated request (validate_adapter_result is_secret serializable raw)
  fetched_verdict request timeout (adapter_not_configured type_name message) =
      refusal request "NOT_CONFIGURED" type_name message "MISSING"
  fetched_verdict request timeout timed_out =
      refusal request "DEADLINE_EXCEEDED_INDETERMINATE" "ToolDeadlineExceededWorkMayContinue"
        (indeterminate_timeout_message request.tool timeout) "INVALID"
  fetched_verdict request timeout cancelled = dropped
  fetched_verdict request timeout (raised message) =
      refusal request "FAILED" "InternalAdapterError" message "INVALID"

  abbrev pub timed_verdict : ToolRequest → ℕ → Fetched Data → Option Refusal → Verdict Data
  timed_verdict request default_ms fetched (some r) = refused r
  timed_verdict request default_ms fetched none =
      if is_valid_timeout request.timeout
      then fetched_verdict request (timeout_ms default_ms request.timeout) fetched
      else refusal request "FAILED" "InvalidTimeout" "Tool timeout must be from 0.1 to 600 seconds."
          "INVALID"

  -- The branches of `dispatch`, up to the recording.
  unfoldable pub verdict : ToolDispatcher → ToolRequest → Fetched Data → Verdict Data
  verdict d request fetched =
      if contains d.adapters request.tool
      then timed_verdict request d.default_timeout_ms fetched (preflight_access s request)
      else refusal request "FAILED" "UnknownTool" (append "Unknown tool adapter: " request.tool)
          "MISSING"

  abbrev pub refused_event : ToolRequest → Refusal → TelemetryEvent
  refused_event request r = record {
    operation = request.tool;
    status = r.status;
    evidence_state = none;
    required = request.required;
  }

  -- `_failure`
  abbrev pub failure_result : ToolRequest → Refusal → ToolDispatchResult Data
  failure_result request r = record {
    result = record {
      tool = request.tool;
      status = if r.status == "NOT_CONFIGURED" then "unavailable" else "failed";
      evidence_state = r.evidence_state;
      required = request.required;
    };
    content = none;
    warnings = [];
    error_type = some r.error_type;
    sanitized_error = some (prefix 500 (s.redact r.message));
  }

  abbrev pub evidence_result : ToolRequest → AdapterResult Data → ToolDispatchResult Data
  evidence_result request r = record {
    result = record {
      tool = request.tool;
      status = r.status;
      evidence_state = adapter_evidence_state r.status request.required;
      required = request.required;
    };
    content = some r.content;
    warnings = r.warnings;
    error_type = none;
    sanitized_error = none;
  }

  -- The event that is recorded, and the result; none where the wait was cancelled.
  abbrev pub event_of : ToolRequest → Verdict Data → TelemetryEvent
  event_of request (refused r) = refused_event request r
  event_of request dropped = record {
    operation = request.tool;
    status = "CANCELLED";
    evidence_state = none;
    required = request.required;
  }
  event_of request (accepted r) = record {
    operation = request.tool;
    status = upper r.status;
    evidence_state = some (adapter_evidence_state r.status request.required);
    required = request.required;
  }

  abbrev pub result_of : ToolRequest → Verdict Data → Option (ToolDispatchResult Data)
  result_of request (refused r) = some (failure_result request r)
  result_of request dropped = none
  result_of request (accepted r) = some (evidence_result request r)

  unfoldable pub dispatch :
      ToolRequest
      → Fetched Data
      → ToolDispatcher
      → Option (ToolDispatchResult Data) × ToolDispatcher
  dispatch request fetched d =
      let v = verdict d request fetched in
      (result_of request v, record_event (event_of request v) d)

  -- The requests of a run, in the order in which their waits end.
  unfoldable pub dispatch_all : List (ToolRequest × Fetched Data) → ToolDispatcher → ToolDispatcher
  dispatch_all [] d = d
  dispatch_all (c ∷ calls) d = dispatch_all calls (dispatch c.0 c.1 d).1
