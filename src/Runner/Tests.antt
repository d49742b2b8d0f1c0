-- ===== src/Runner/Tests.antt =====
-- Runs of the workflow functions on the graph of two nodes of the handoff tests.
use world_class_seo_agent_sy.Prelude.{
  ◌≡◌, ◌↔◌, refl, Bool, true, false, String, none, some, [], ◌∷◌, Ensures, if◌then◌else◌,
}
use world_class_seo_agent_sy.Budget.Usage.{open_budget}
use world_class_seo_agent_sy.Budget.Tests.{whole, limits}
use world_class_seo_agent_sy.Handoff.Outputs.{AgentOutput, empty_output}
use world_class_seo_agent_sy.Handoff.Tests.{
  small_graph-validate, constant_digest, small_graph, node_a, node_b, both_complete, both_outputs,
  resolved_handoff,
}
use world_class_seo_agent_sy.Runner.Session.{Run}
use world_class_seo_agent_sy.Runner.Support.{WorkflowStatus, workflow_status}
use world_class_seo_agent_sy.Runner.Nodes.{start_node}
use world_class_seo_agent_sy.Runner.Schedule.{Progress, at, next_level, stay, step}
use world_class_seo_agent_sy.Runner.Finalize.{finalize_run}
use world_class_seo_agent_sy.Runner.Status.{
  IsComplete, workflow_status_iff, IsFinished, finalize_run-IsFinished,
}
use world_class_seo_agent_sy.Handoff.Edges.{or_text}
use world_class_seo_agent_sy.Handoff.Resolve.{is_text}
use world_class_seo_agent_sy.Findings.Registry.{Output, pair}
use world_class_seo_agent_sy.Findings.Decisions.{Decision}
use world_class_seo_agent_sy.Runner.Reconcile.{reconcile_outputs}
use world_class_seo_agent_sy.Runner.Governed.{IsGoverned, reconcile_outputs-IsGoverned}
use world_class_seo_agent_sy.Runner.Outputs.{Starts, start_node-Starts}

abbrev pub fresh_run : Run whole
fresh_run = record {
  session_id = "s";
  evidence_ids = [];
  open_risks = [];
  handoffs = [];
  agent_outputs = [];
  events = [];
  outputs = [];
  states = [];
  errors = [];
  budget = open_budget limits 0;
}

abbrev ended_run : Run whole
ended_run = record fresh_run {
  handoffs = resolved_handoff ∷ [];
  outputs = both_outputs;
  states = both_complete;
}

abbrev before_levels : Progress whole
before_levels = at 0 [] [] [] ((node_a ∷ []) ∷ (node_b ∷ []) ∷ []) fresh_run

abbrev first_level : Progress whole
first_level = at 0 (node_a ∷ []) [] [] ((node_b ∷ []) ∷ []) fresh_run

workflow_status_iff_example :
    (workflow_status {C = String} {U = String} small_graph both_complete
        (some empty_output)
        []
        []
        false
        []
      ≡ WorkflowStatus.complete)
    ↔ IsComplete {C = String} {U = String} small_graph both_complete
        (some empty_output)
        []
        []
        false
        []
workflow_status_iff_example =
    workflow_status_iff small_graph both_complete (some empty_output) [] [] false []

finalize_run-IsFinished_example :
    Ensures
      (λ end.
        end.1 ≡ WorkflowStatus.complete
        → IsFinished {F = whole} {Conflict = String} constant_digest small_graph [] [] ended_run
            end.2)
      (λ e. ⊥)
      (finalize_run {F = whole} {Conflict = String} constant_digest small_graph [] [] ended_run)
finalize_run-IsFinished_example =
    finalize_run-IsFinished constant_digest 2 2 small_graph [] [] ended_run small_graph-validate

start_node-Starts_example :
    Ensures (Starts 0 node_a fresh_run) (λ e. ⊥) (start_node 0 node_a fresh_run)
start_node-Starts_example =
    start_node-Starts constant_digest before_levels first_level 0 node_a refl (
      step before_levels first_level first_level
        (next_level 0 (node_a ∷ []) ((node_b ∷ []) ∷ []) fresh_run) (stay first_level))

abbrev admits : Decision → Bool
admits decision = true

-- Agent A asks for a canonical link, the other agent against it.
abbrev opposing : AgentOutput → Output
opposing output = record {
  agent = or_text output.agent "Unknown Agent";
  findings =
      record {
        id = some "f1";
        affected_scope = "site";
        finding = "canonical";
        severity = some "High";
        evidence_refs = "e1" ∷ [];
        action_polarity =
            pair "canonical" (if is_text output.agent "A" then "ENABLE" else "DISABLE");
      }
      ∷ [];
  evidence = record { id = some "e1"; source = none; state = "CURRENT" } ∷ [];
}

reconcile_outputs-IsGoverned_example :
    Ensures
      (IsGoverned admits)
      (λ e. Unit {0})
      (reconcile_outputs opposing admits "s" both_outputs both_complete)
reconcile_outputs-IsGoverned_example =
    reconcile_outputs-IsGoverned opposing admits "s" both_outputs both_complete
