-- ===== src/Runner/Nodes.antt =====
-- `_execute_node` of runtime/workflow_runner.py, cut where it waits for the executor: `start_node` is
-- the code before, `finish_node` the code after. The sealing of receipts is the parameter `digest`.
use Prim.Native.String.{◌++◌ as append}
use world_class_seo_agent_sy.Prelude.{
  ℕ, suc, Bool, true, false, not, ◌&&◌, ◌||◌, String, Option, none, some, List, [], ◌∷◌, ◌++◌, map,
  Result, ok, err, ◌>>=◌, keep, any, is_empty, lookup, insert, take, ◌==◌, if◌then◌else◌,
}
use world_class_seo_agent_sy.Prelude.Strings.{prefix}
use world_class_seo_agent_sy.Budget.Limits.{Float}
use world_class_seo_agent_sy.Budget.Usage.{BudgetExceeded, RunBudget, reserve_node}
use world_class_seo_agent_sy.State.{HandoffContract, Handoff, created, new_handoff}
use world_class_seo_agent_sy.Graph.Nodes.{WorkflowNode}
use world_class_seo_agent_sy.Handoff.Outputs.{OutputFinding, AgentOutput}
use world_class_seo_agent_sy.Handoff.Receipts.{Digest}
use world_class_seo_agent_sy.Handoff.Resolve.{acks_for, resolve_handoff_acknowledgements}
use world_class_seo_agent_sy.Handoff.Edges.{
  States, Outputs, is_completed, or_text, status_is, expected_handoff_id, KeyError, key_error,
}
use world_class_seo_agent_sy.Runner.Session.{
  Run, incomplete_dependencies, over_budget, reported, running, ended, add_event, AgentResult,
}
use world_class_seo_agent_sy.Runner.Support.{block_node, node_result_state}

abbrev pub id_of : Option String → List String
id_of none = []
id_of (some id) = if id == "" then [] else id ∷ []

-- `[str(item.get("id")) for item in findings if item.get("id")]`
abbrev pub finding_ids : List OutputFinding → List String
finding_ids [] = []
finding_ids (f ∷ fs) = id_of f.id ++ finding_ids fs

abbrev pub is_severe : Option String → Bool
is_severe none = false
is_severe (some severity) = severity == "Critical" || severity == "High"

abbrev pub dependency_contract : String → WorkflowNode → ℕ → String → AgentOutput → HandoffContract
dependency_contract session_id node index source output = record {
  handoff_id = expected_handoff_id session_id node.id index;
  from_agent = or_text output.agent "Unknown Agent";
  to_agent = node.agent;
  reason = append "Dependency output required by workflow node " (append node.id ".");
  context_summary = prefix 1000 output.summary;
  evidence_refs = finding_ids output.findings;
  requested_action =
      append "Consume this validated output and complete the "
        (append node.role " responsibility without duplicating unsupported conclusions.");
  risk_level = if any (λ f. is_severe f.severity) output.findings then "High" else "Medium";
  acceptance_criteria =
      "The receiving output references or explicitly challenges the supplied evidence."
      ∷ "Conflicts and missing evidence are not silently discarded." ∷ [];
  due_trigger = append "Before node " (append node.id " is complete.");
  source_node_id = source;
  target_node_id = node.id;
}

-- `_create_handoffs`, over the dependencies with their outputs.
unfoldable pub create_handoffs :
    String → WorkflowNode → ℕ → List (String × AgentOutput) → List Handoff
create_handoffs session_id node index [] = []
create_handoffs session_id node index (dep ∷ deps) =
    new_handoff (dependency_contract session_id node index dep.0 dep.1)
    ∷ create_handoffs session_id node (suc index) deps

abbrev pub output_or_error : String → Option AgentOutput → Result KeyError AgentOutput
output_or_error dep none = err (key_error dep)
output_or_error dep (some output) = ok output

-- `[outputs[item] for item in node.depends_on]`, each with its key.
unfoldable pub dependency_outputs :
    Outputs → List String → Result KeyError (List (String × AgentOutput))
dependency_outputs outputs [] = ok []
dependency_outputs outputs (dep ∷ deps) = output_or_error dep (lookup dep outputs) >>= λ output.
    dependency_outputs outputs deps >>= λ rest. ok ((dep, output) ∷ rest)

-- The test of `_addressed_handoff_payloads` and of `_resolve_node_handoffs`.
abbrev pub is_addressed : WorkflowNode → Handoff → Bool
is_addressed node h =
    status_is h.status created
    && h.to_agent == node.agent
    && (h.target_node_id == "" || h.target_node_id == node.id)

unfoldable pub addressed_handoff_payloads : WorkflowNode → List Handoff → List Handoff
addressed_handoff_payloads node handoffs = keep (is_addressed node) handoffs

abbrev pub incomplete : States → List String → List String
incomplete states deps = keep (λ dep. not (is_completed (lookup dep states))) deps

-- `a or b`, for a text that may be missing
abbrev pub or_else : Option String → String → String
or_else none text = text
or_else (some value) text = if value == "" then text else value

module _ (digest : Digest) where
  -- `_resolve_node_handoffs`
  unfoldable pub resolve_node_handoffs :
      (now output_id : String) → WorkflowNode → AgentOutput → List Handoff → List Handoff
  resolve_node_handoffs now output_id node output [] = []
  resolve_node_handoffs now output_id node output (h ∷ hs) =
      (if is_addressed node h
        then resolve_handoff_acknowledgements digest now output_id node.id (or_text output.agent "")
            h (acks_for h.handoff_id output.handoff_acknowledgements)
        else h)
      ∷ resolve_node_handoffs now output_id node output hs

module _ {F : Float} where
  abbrev pub after_reserve :
      WorkflowNode → Option BudgetExceeded × RunBudget F → Run F → Result KeyError (Bool × Run F)
  after_reserve node (some refusal, budget) r =
      ok (false, block_node node (over_budget refusal) (record r { budget = budget }))
  after_reserve node (none, budget) r =
      dependency_outputs r.outputs node.depends_on >>= λ dependencies. ok (
        true,
        add_event node.id node.agent running [] (record r {
          budget = budget;
          handoffs = r.handoffs ++ create_handoffs r.session_id node 1 dependencies;
        }),
      )

  -- Until the executor is called: whether it is, and the run.
  unfoldable pub start_node : ℕ → WorkflowNode → Run F → Result KeyError (Bool × Run F)
  start_node now node r =
      let blocked = incomplete r.states node.depends_on in
      if not (is_empty blocked)
      then ok (false, block_node node (incomplete_dependencies blocked) r)
      else after_reserve node (reserve_node now r.budget) r

  module _ (digest : Digest) where
    -- From what the executor returned.
    unfoldable pub finish_node : String → WorkflowNode → AgentOutput → AgentResult → Run F → Run F
    unfolding resolve_node_handoffs
    finish_node now node output result r =
        let output_id = or_else output.output_id (or_else output.agent node.id) in
        let state = node_result_state result.status result.synthetic output in
        add_event node.id node.agent (ended state) (map reported (take 3 result.errors)) (record r {
          handoffs = resolve_node_handoffs digest now output_id node output r.handoffs;
          outputs = insert node.id output r.outputs;
          agent_outputs = r.agent_outputs ++ output ∷ [];
          states = insert node.id state r.states;
          errors = insert node.id (map reported result.errors) r.errors;
        })
