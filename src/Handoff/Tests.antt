-- ===== src/Handoff/Tests.antt =====
-- Runs of the handoff functions on a graph of two nodes, under a digest that is constant.
use world_class_seo_agent_sy.Prelude.{
  ok, ◌≡◌, ◌≢◌, ◌⊎◌, refl, true, String, none, some, [], ◌∷◌, Ensures,
}
use world_class_seo_agent_sy.State.{Handoff, new_handoff}
use world_class_seo_agent_sy.Graph.Validate.{
  validate, validate_nodes, validate_depth, max_depth, depth_of, validate_deliverable,
}
use world_class_seo_agent_sy.Graph.Nodes.{WorkflowNode, WorkflowGraph}
use world_class_seo_agent_sy.Handoff.Outputs.{Acknowledgement, empty_output}
use world_class_seo_agent_sy.Handoff.Receipts.{
  Digest, terminal_receipt_is_valid, seal_terminal_handoff,
}
use world_class_seo_agent_sy.Handoff.Resolve.{
  ack_context_is_exact, resolve_handoff_acknowledgements, acks_for,
}
use world_class_seo_agent_sy.Handoff.Edges.{
  audit_graph_edges, index_handoffs, expected_handoff_id, States, Outputs, complete,
}
use world_class_seo_agent_sy.Graph.Build.{dedupe_from}
use world_class_seo_agent_sy.Prelude.Strings.{blank}
use world_class_seo_agent_sy.Prelude.Numerals.{padded}
use world_class_seo_agent_sy.Handoff.Controls.{audit_declared_controls}
use world_class_seo_agent_sy.Handoff.Reconcile.{reconcile_required_handoffs}
use world_class_seo_agent_sy.Handoff.Acks.{
  IsAccepted, IsSealed, resolve-IsAccepted, resolve-IsSealed,
}
use world_class_seo_agent_sy.Handoff.Settled.{IsSettled, reconcile-IsSettled}
use world_class_seo_agent_sy.Handoff.Passes.{IsPassed, reconcile-IsPassed}

pub constant-ne-nil : ◌≢◌ {A = String} "digest" ""
constant-ne-nil = λ e. cc e

abbrev pub constant_digest : Digest
constant_digest = record { hex = λ h. "digest"; hex-ne-nil = λ h. constant-ne-nil }

abbrev pub first_handoff : Handoff
first_handoff = new_handoff (record {
  handoff_id = "s-b-handoff-01";
  from_agent = "A";
  to_agent = "B";
  reason = "";
  context_summary = "";
  evidence_refs = "e1" ∷ "e2" ∷ [];
  requested_action = "consume";
  risk_level = "Medium";
  acceptance_criteria = "c" ∷ [];
  due_trigger = "";
  source_node_id = "a";
  target_node_id = "b";
})

abbrev pub first_ack : Acknowledgement
first_ack = record {
  handoff_id = some "s-b-handoff-01";
  disposition = some "ACCEPTED";
  requested_action_addressed = some "consume";
  evidence_refs_addressed = "e2" ∷ "e1" ∷ [];
  acceptance_criteria_addressed = "c" ∷ [];
  resolution_note = "read";
}

abbrev pub resolved_handoff : Handoff
resolved_handoff =
    resolve_handoff_acknowledgements constant_digest "now" "out-b" "b" "B" first_handoff
      (first_ack ∷ [])

resolve-IsAccepted_example :
    IsAccepted constant_digest "now" "out-b" "b" "B" first_handoff (first_ack ∷ [])
unfolding resolve_handoff_acknowledgements seal_terminal_handoff ack_context_is_exact blank
resolve-IsAccepted_example =
    resolve-IsAccepted constant_digest "now" "out-b" "b" "B" first_handoff (first_ack ∷ []) refl
      refl

resolve-IsSealed_example :
    (acks_for "s-b-handoff-01" (first_ack ∷ []) ≡ []) × (resolved_handoff ≡ first_handoff)
    ⊎ (acks_for "s-b-handoff-01" (first_ack ∷ []) ≢ [])
      × IsSealed constant_digest "now" "out-b" "b" "B" first_handoff resolved_handoff
resolve-IsSealed_example =
    resolve-IsSealed constant_digest "now" "out-b" "b" "B" first_handoff (first_ack ∷ [])

abbrev pub node_a : WorkflowNode
node_a = record {
  id = "a";
  agent = "A";
  depends_on = [];
  required = true;
  role = "";
  condition = none;
}

abbrev pub node_b : WorkflowNode
node_b = record {
  id = "b";
  agent = "B";
  depends_on = "a" ∷ [];
  required = true;
  role = "";
  condition = none;
}

abbrev pub small_graph : WorkflowGraph
small_graph = record {
  id = "w";
  nodes = node_a ∷ node_b ∷ [];
  deliverable_node_id = "b";
  capacity_exclusions = [];
  declared_control_handoffs = [];
}

pub small_graph-validate : validate 2 2 small_graph ≡ ok tt
unfolding validate validate_nodes validate_depth max_depth depth_of validate_deliverable
small_graph-validate = refl

abbrev pub both_complete : States
both_complete = ("a", complete) ∷ ("b", complete) ∷ []

abbrev pub both_outputs : Outputs
both_outputs =
    ("a", record empty_output { agent = some "A"; output_id = some "out-a" })
    ∷ ("b", record empty_output { agent = some "B"; output_id = some "out-b" })
    ∷ []

reconcile-IsSettled_example :
    Ensures
      (IsSettled constant_digest (first_handoff ∷ []))
      (λ e. ⊥)
      (reconcile_required_handoffs constant_digest "s" small_graph both_complete both_outputs
        (first_handoff ∷ []))
reconcile-IsSettled_example =
    reconcile-IsSettled constant_digest 2 2 "s" small_graph both_complete both_outputs
      (first_handoff ∷ []) small_graph-validate

reconcile-IsPassed_example :
    Ensures
      (IsPassed constant_digest "s" small_graph both_complete both_outputs (resolved_handoff ∷ []))
      (λ e. ⊥)
      (reconcile_required_handoffs constant_digest "s" small_graph both_complete both_outputs
        (resolved_handoff ∷ []))
unfolding reconcile_required_handoffs resolve_handoff_acknowledgements audit_graph_edges
    index_handoffs dedupe_from ack_context_is_exact blank seal_terminal_handoff expected_handoff_id
    padded terminal_receipt_is_valid audit_declared_controls
reconcile-IsPassed_example =
    reconcile-IsPassed constant_digest 2 2 "s" small_graph both_complete both_outputs
      (resolved_handoff ∷ []) small_graph-validate refl

drops_test :
    Ensures
      (λ r. r.passes ≡ true)
      (λ e. Unit)
      (reconcile_required_handoffs constant_digest "s" small_graph both_complete both_outputs
        (first_handoff ∷ []))
    → ⊥
unfolding reconcile_required_handoffs resolve_handoff_acknowledgements audit_graph_edges
    index_handoffs dedupe_from ack_context_is_exact blank seal_terminal_handoff expected_handoff_id
    padded terminal_receipt_is_valid audit_declared_controls
drops_test = λ e. cc e
