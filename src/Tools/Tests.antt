-- ===== src/Tools/Tests.antt =====
-- A required tool that answers, and one that is asked for a local host.
use Prim.Native.String.{String}
use world_class_seo_agent_sy.Prelude.{◌≡◌, ◌↔◌, refl, Bool, true, false, [], ◌∷◌, none, some, ok}
use world_class_seo_agent_sy.Prelude.Strings.{lower, blank}
use world_class_seo_agent_sy.Runner.Support.{tool_failed}
use world_class_seo_agent_sy.Tools.Contracts.{raw_result}
use world_class_seo_agent_sy.Tools.Dots.{without_dots}
use world_class_seo_agent_sy.Tools.Access.{
  default_timeout, ToolRequest, Surroundings, preflight_access, first_unsafe_url_argument,
  unsafe_url_reason, unsafe_host_reason,
}
use world_class_seo_agent_sy.Tools.Dispatch.{
  Fetched, returned, timed_out, cancelled, ToolDispatcher, ToolDispatchResult, new_dispatcher,
  dispatch, dispatch_all,
}
use world_class_seo_agent_sy.Tools.Usable.{IsUsable, dispatch-IsUsable}
use world_class_seo_agent_sy.Tools.Telemetry.{last, history, dispatch_all-history}

abbrev site : Surroundings
site = record {
  environment = λ name. none;
  urlsplit = λ url. some (record {
    scheme = "http";
    has_credentials = false;
    query_keys = [];
    hostname = some "LOCALHOST.";
  });
  is_global = λ host. none;
  redact = λ text. text;
  format_seconds = λ ms. "60";
}

abbrev clean : String → Bool
clean text = false

abbrev finite : String → Bool
finite content = true

abbrev request : ToolRequest
request = record {
  tool = "crawler";
  arguments = ("depth", none) ∷ [];
  required = true;
  timeout = default_timeout;
  budget_approved = false;
}

abbrev answer : Fetched String
answer = returned (raw_result (some "crawler") (some "complete") "rows" (some []))

abbrev dispatcher : ToolDispatcher
dispatcher = record {
  adapters = "crawler" ∷ [];
  max_telemetry_events = 1;
  default_timeout_ms = 60000;
  telemetry = [];
}

answer-ne-cancelled : ◌≡◌ {A = Fetched String} answer cancelled → ⊥
answer-ne-cancelled h = cc

dispatch-IsUsable_example :
    (t : ToolDispatchResult String) × ((dispatch site clean finite request answer dispatcher).0
      ≡ some t)
    × ((tool_failed t.result ≡ false) ↔ IsUsable site clean finite dispatcher request answer)
dispatch-IsUsable_example =
    dispatch-IsUsable site clean finite dispatcher request refl answer answer-ne-cancelled

dispatcher-new : new_dispatcher ("crawler" ∷ []) 1 60000 ≡ ok dispatcher
unfolding new_dispatcher blank
dispatcher-new = refl

dispatch_all-history_example :
    (dispatch_all site clean finite
      ((request, answer) ∷ (request, timed_out) ∷ [])
      dispatcher).telemetry
    ≡ last 1 (history site clean finite dispatcher ((request, answer) ∷ (request, timed_out) ∷ []))
dispatch_all-history_example =
    dispatch_all-history site clean finite ("crawler" ∷ []) 1 60000 dispatcher
      ((request, answer) ∷ (request, timed_out) ∷ []) dispatcher-new

abbrev local_request : ToolRequest
local_request = record request { arguments = ("URL", some "http://LOCALHOST./") ∷ [] }

preflight_test :
    preflight_access site local_request
    ≡ some (record {
      status = "FAILED";
      error_type = "UnsafeURL";
      message = "URL points to a local host";
      evidence_state = "BLOCKED";
    })
unfolding preflight_access first_unsafe_url_argument unsafe_url_reason unsafe_host_reason
    without_dots lower
preflight_test = refl
