-- ===== src/Agents/Echo.antt =====
-- The offline branch of runtime/structured_output.py: `_echo_output`, its acknowledgements, and the
-- choice between it and a model. The texts of the synthetic output that no modelled code reads are
-- the parameter `echo_body`.
use Prim.Native.String.{String, ◌++◌ as append}
use world_class_seo_agent_sy.Prelude.{
  ◌≡◌, inl, inr, refl, true, false, List, [], ◌∷◌, map, is_empty, contains, none, some, ok, ◌==◌,
  if◌then◌else◌, Bool-cases,
}
use world_class_seo_agent_sy.State.{HandoffContract}
use world_class_seo_agent_sy.Handoff.Outputs.{Acknowledgement}
use world_class_seo_agent_sy.Budget.Limits.{Float}
use world_class_seo_agent_sy.Budget.Usage.{RunBudget}
use world_class_seo_agent_sy.Agents.Specialist.{
  specialist_agents, SpecialistDecision, SpecialistOutput, specialist_output_errors,
}
use world_class_seo_agent_sy.Agents.Consistent.{specialist_output_errors_iff}
use world_class_seo_agent_sy.Agents.Output.{
  AgentObject, OutputError, succeeded, failed, StructuredOutput, Validators, Request, Client,
  Completion, output_errors, complete_live,
}

abbrev pub echo_evidence_id : String
echo_evidence_id = "synthetic-runtime-context"

unfoldable pub echo_acknowledgement : HandoffContract → Acknowledgement
echo_acknowledgement h = record {
  handoff_id = some h.handoff_id;
  disposition = some (if is_empty h.evidence_refs then "CHALLENGED" else "ACCEPTED");
  requested_action_addressed = some h.requested_action;
  evidence_refs_addressed = h.evidence_refs;
  acceptance_criteria_addressed = h.acceptance_criteria;
  resolution_note = "Synthetic acknowledgement; not production evidence.";
}

unfoldable pub echo_handoff_acknowledgements : List HandoffContract → List Acknowledgement
echo_handoff_acknowledgements handoffs = map echo_acknowledgement handoffs

abbrev pub synthetic_specialist_decision : String → SpecialistDecision
synthetic_specialist_decision evidence_id = record {
  decision = some "PARTIAL";
  mapped_execution_state = some "PARTIAL";
  evidence_refs = some (evidence_id ∷ []);
  human_action_required = some false;
}

-- What the validators of this repository read of the synthetic output.
unfoldable pub echo_known : String → SpecialistOutput
echo_known agent_name = record {
  agent = some agent_name;
  execution_state = some "SYNTHETIC";
  evidence = some echo_evidence_id ∷ [];
  specialist_decision =
      if contains specialist_agents agent_name
      then some (synthetic_specialist_decision echo_evidence_id)
      else none;
}

module _ {Body : Type 0} (v : Validators Body) (q : Request v) (echo_body : Body) where
  abbrev pub echo_output : AgentObject Body
  echo_output = record {
    known = echo_known q.agent_name;
    output_id = some (append "synthetic-" (v.slug q.agent_name));
    skills_used = some q.skills;
    knowledge_used = some q.knowledge;
    body = echo_body;
  }

  abbrev echo_errors : List OutputError
  echo_errors = output_errors v echo_output q.agent_name true

  unfoldable pub complete_echo : StructuredOutput Body
  complete_echo = record {
    status = if is_empty echo_errors then succeeded else failed;
    output = if is_empty echo_errors then some echo_output else none;
    errors = echo_errors;
    attempts = 0;
    response = none;
    synthetic = true;
  }

  unfoldable pub complete_agent_output :
      {F : Float} {World : Type 0}
      → String
      → Client F World
      → World
      → RunBudget F
      → Completion F Body World
  complete_agent_output provider client world budget =
      if provider == "echo"
      then record { result = ok complete_echo; world = world; budget = budget }
      else complete_live v client q world budget

-- A synthetic output has no specialist error.
pub echo_known-errors : (agent : String) → specialist_output_errors (echo_known agent) ≡ []
unfolding echo_known
echo_known-errors agent = elim (Bool-cases (contains specialist_agents agent)) [
  | inl s ↦ (specialist_output_errors_iff (echo_known agent) s).1 (
      rw s (record {
        mapped = ("PARTIAL", refl, refl, inr (refl, refl));
        human = refl;
        references = (echo_evidence_id ∷ [], refl, refl, inr refl);
      }))
  | inr n ↦ unfold specialist_output_errors in rw n refl
]
