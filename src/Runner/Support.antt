-- ===== src/Runner/Support.antt =====
-- runtime/workflow_run_support.py, less the payload of the report.
use Prim.Native.String.{◌++◌ as append}
use world_class_seo_agent_sy.Prelude.{
  Bool, true, false, not, ◌&&◌, ◌||◌, String, Option, none, some, List, [], ◌∷◌, ◌++◌, map, keep,
  find, any, is_empty, contains, lookup, insert, join, ◌==◌, if◌then◌else◌,
}
use world_class_seo_agent_sy.Prelude.Strings.{prefix}
use world_class_seo_agent_sy.Budget.Limits.{Float}
use world_class_seo_agent_sy.Routing.Routes.{RouteResult}
use world_class_seo_agent_sy.State.{HandoffContract, new_handoff}
use world_class_seo_agent_sy.Graph.Nodes.{WorkflowNode, WorkflowGraph, contract}
use world_class_seo_agent_sy.Handoff.Outputs.{AgentOutput}
use world_class_seo_agent_sy.Handoff.Resolve.{is_text}
use world_class_seo_agent_sy.Handoff.Edges.{NodeState, States, Outputs, is_completed}
use world_class_seo_agent_sy.Runner.Session.{Run, Detail, ended, add_event, ToolResult}

abbrev pub tool_failed : ToolResult → Bool
tool_failed t = t.required && contains ("BLOCKED" ∷ "INVALID" ∷ "MISSING" ∷ []) t.evidence_state

abbrev tool_risk : ToolResult → String
tool_risk t =
    append "Required tool "
      (append t.tool (append " did not produce usable evidence: " (append t.status ".")))

-- The agent of the first node that the Scrummaster holds, or "".
abbrev pub scrum_node_id : Option WorkflowNode → String
scrum_node_id none = ""
scrum_node_id (some node) = node.id

module _ {F : Float} where
  -- The failures, and the run with a risk for each.
  unfoldable pub record_required_tool_failures : List ToolResult → Run F → List ToolResult × Run F
  record_required_tool_failures tools r =
      let failures = keep tool_failed tools in
      (failures, record r { open_risks = r.open_risks ++ map tool_risk failures })

  abbrev pub risk_contract : RouteResult → WorkflowGraph → Run F → HandoffContract
  risk_contract route g r = record {
    handoff_id = append r.session_id "-risk-escalation-001";
    from_agent = route.lead_agent;
    to_agent = "SEO Scrummaster Agent";
    reason = route.escalation;
    context_summary = prefix 1000 (join "; " r.open_risks);
    evidence_refs = r.evidence_ids;
    requested_action =
        "Review the open risks, determine whether the workflow may proceed, and record a decision before implementation or publication.";
    risk_level = "High";
    acceptance_criteria =
        "A schema-valid decision record addresses each open risk."
        ∷ "No gated implementation proceeds on unresolved evidence." ∷ [];
    due_trigger = "Before implementation or publication.";
    source_node_id = "workflow-control:open-risks";
    target_node_id = scrum_node_id (find (λ node. node.agent == "SEO Scrummaster Agent") g.nodes);
  }

  -- The graph with the declaration, and the run with the handoff.
  unfoldable pub append_risk_handoff : RouteResult → WorkflowGraph → Run F → WorkflowGraph × Run F
  append_risk_handoff route g r =
      let c = risk_contract route g r in
      if is_empty r.open_risks || route.lead_agent == "SEO Scrummaster Agent" then (g, r) else (
        record g {
          declared_control_handoffs =
              g.declared_control_handoffs
              ++ record {
                keys = "control_type" ∷ "handoff" ∷ [];
                control_type = some "OPEN_RISK_ESCALATION";
                handoff = contract c;
              }
                ∷ [];
        },
        record r { handoffs = r.handoffs ++ new_handoff c ∷ [] },
      )

  unfoldable pub block_node : WorkflowNode → Detail → Run F → Run F
  block_node node detail r =
      add_event node.id node.agent (ended NodeState.blocked) (detail ∷ []) (record r {
        states = insert node.id NodeState.blocked r.states;
        errors = insert node.id (detail ∷ []) r.errors;
      })

-- `declared if declared in {...} else "FAILED"`
abbrev pub declared_state : Option String → NodeState
declared_state none = NodeState.failed
declared_state (some declared) =
    if declared == "COMPLETE"
    then NodeState.complete
    else if declared == "PARTIAL"
    then NodeState.partial
    else if declared == "BLOCKED"
    then NodeState.blocked
    else NodeState.failed

unfoldable pub node_result_state : String → Bool → AgentOutput → NodeState
node_result_state status synthetic output =
    if status == "ok"
    then if synthetic
      then if is_text output.execution_state "SYNTHETIC"
        then NodeState.synthetic
        else NodeState.failed
      else declared_state output.execution_state
    else if status == "blocked"
    then NodeState.blocked
    else NodeState.failed

unfoldable pub scrum_completed : List AgentOutput → Bool
scrum_completed outputs = any (λ o. is_text o.agent "SEO Scrummaster Agent") outputs

unfoldable pub final_output : WorkflowGraph → Outputs → States → Option AgentOutput
final_output g outputs states =
    if is_completed (lookup g.deliverable_node_id states)
    then lookup g.deliverable_node_id outputs
    else none

pub data WorkflowStatus : Type 0 where
  complete partial failed : WorkflowStatus

abbrev pub is_none {ℓ} : {A : Type ℓ} → Option A → Bool
is_none none = true
is_none (some a) = false

unfoldable pub required_failed : List WorkflowNode → States → Bool
required_failed nodes states =
    any (λ n. n.required && not (is_completed (lookup n.id states))) nodes

unfoldable pub optional_failed : List WorkflowNode → States → Bool
optional_failed nodes states =
    any (λ n. not n.required && not (is_completed (lookup n.id states))) nodes

-- The lists of tool failures, conflicts and unresolved handoffs are read only for emptiness.
unfoldable pub workflow_status {ℓ κ} :
    {C : Type ℓ} {U : Type κ}
    → WorkflowGraph
    → States
    → Option AgentOutput
    → List ToolResult
    → List C
    → Bool
    → List U
    → WorkflowStatus
unfolding required_failed optional_failed
workflow_status g states output tool_failures conflicts synthetic unresolved =
    if required_failed g.nodes states || is_none output
    then failed
    else if optional_failed g.nodes states
        || not (is_empty tool_failures)
        || not (is_empty conflicts)
        || synthetic
        || not (is_empty unresolved)
        || not (is_empty g.capacity_exclusions)
    then partial
    else complete
