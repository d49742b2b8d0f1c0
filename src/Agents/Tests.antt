-- ===== src/Agents/Tests.antt =====
-- A local specialist, a model that answers well at its second attempt, and the offline output.
use Prim.Native.String.{String}
use world_class_seo_agent_sy.Prelude.{
  ◌≡◌, ◌↔◌, inr, refl, Bool, true, false, List, [], ◌∷◌, ◌++◌, Option, none, some, ok, ◌==◌,
  if◌then◌else◌, arith,
}
use world_class_seo_agent_sy.Prelude.Strings.{occurs, blank, is_space}
use world_class_seo_agent_sy.Prelude.Lines.{strip, lstrip, rstrip}
use world_class_seo_agent_sy.State.{HandoffContract, consumed, accepted}
use world_class_seo_agent_sy.Handoff.Resolve.{resolve_handoff_acknowledgements}
use world_class_seo_agent_sy.Handoff.Tests.{constant_digest, first_handoff}
use world_class_seo_agent_sy.Agents.Fences.{unfenced, object_text}
use world_class_seo_agent_sy.Budget.Usage.{
  RunBudget, cost_total, reserve_model_call, Estimator, open_budget,
}
use world_class_seo_agent_sy.Budget.Runs.{IsWithin}
use world_class_seo_agent_sy.Budget.Tests.{whole, limits}
use world_class_seo_agent_sy.Agents.Specialist.{
  ContextRow, Integrity, Signals, Artifact, decide_state, decision_artifact,
  runtime_integrity_errors, missing_semantic_rules, SpecialistOutput, specialist_output_errors,
}
use world_class_seo_agent_sy.Agents.Consistent.{
  Consistent, held, specialist_output_errors_iff, decision_artifact-specialist_output_errors,
}
use world_class_seo_agent_sy.Agents.Output.{
  AgentObject, malformed, object, succeeded, Validators, Request, Client, correct, complete_live,
  extract_json, validated_response, output_errors, with_defaults,
}
use world_class_seo_agent_sy.Agents.Completes.{Completes, complete_live-Completes}
use world_class_seo_agent_sy.Agents.Echo.{complete_echo, echo_output, echo_handoff_acknowledgements}
use world_class_seo_agent_sy.Agents.Offline.{
  complete_echo_iff, resolve-echo_handoff_acknowledgements,
}

abbrev local_agent : String
local_agent = "Local SEO Agent"

abbrev rows : List ContextRow
rows =
    record { path = "governance/specialist-playbook-integrity.json"; content = "registry" }
    ∷ record { path = "skills/specialist-decision-standard.md"; content = "standard" }
    ∷ record {
      path = "skills/specialist-depth-playbooks.md#Local SEO Agent";
      content = "protect hidden addresses; `ABSTAIN` from rank-cause and market-share claims";
    }
    ∷ []

abbrev registry : String → String → Option Integrity
registry raw agent = some (record {
  schema_version = "1.0.0";
  hash_algorithm = "sha256-normalized-utf8";
  standard_path = "skills/specialist-decision-standard.md";
  standard_version = 1;
  standard_sha256 = "standard";
  playbook_version = 1;
  playbook_sha256 = "protect hidden addresses; `ABSTAIN` from rank-cause and market-share claims";
})

abbrev same : String → String
same s = s

abbrev signals : Signals
signals = record {
  required_evidence_available = true;
  material_harm = false;
  evidence_ambiguous = true;
  coverage_limited = false;
}

abbrev decided : Artifact
decided = record {
  decision = "ABSTAIN";
  mapped_execution_state = some "PARTIAL";
  rationale_code = "EVIDENCE_CANNOT_DISTINGUISH_EXPLANATIONS";
  evidence_refs = "e1" ∷ [];
  human_action_required = false;
}

abbrev output : SpecialistOutput
output = record {
  agent = some local_agent;
  execution_state = some "PARTIAL";
  evidence = some "e0" ∷ none ∷ some "e1" ∷ [];
  specialist_decision = some (held decided);
}

decided-made : decision_artifact registry same local_agent rows signals ("e1" ∷ []) ≡ ok decided
unfolding decision_artifact runtime_integrity_errors missing_semantic_rules decide_state occurs
    blank is_space
decided-made = refl

decision_artifact-specialist_output_errors_example : specialist_output_errors output ≡ []
decision_artifact-specialist_output_errors_example =
    decision_artifact-specialist_output_errors registry same local_agent rows signals ("e1" ∷ [])
      decided output decided-made refl refl refl refl (inr refl)

specialist_output_errors_iff_example :
    (specialist_output_errors output ≡ []) ↔ Consistent output output.specialist_decision
specialist_output_errors_iff_example = specialist_output_errors_iff output refl

-- A service that reads "good" only.
abbrev answer : AgentObject String
answer = record {
  known = output;
  output_id = none;
  skills_used = none;
  knowledge_used = none;
  body = "";
}

abbrev validators : Validators String
validators = record {
  json_loads = λ s. if s == "good" then object answer else malformed;
  schema_errors = λ o. [];
  binding_errors = λ o. [];
  describe = λ e. "error";
  slug = same;
}

abbrev asked : Request validators
asked = record {
  agent_name = local_agent;
  skills = [];
  knowledge = [];
  messages = [];
  instruction = record { role = "system"; content = "Return one JSON object." };
}

-- It answers "bad" first, and then "good".
abbrev client : Client whole Bool
client = record {
  complete = λ answered messages. (ok (if answered then "good" else "bad"), true);
  estimator = λ answered messages. Estimator.quotes 3;
  clock = λ answered. 0;
}

abbrev budget : RunBudget whole
budget = open_budget limits 0

budget-IsWithin : IsWithin budget
budget-IsWithin = ground arith

complete_live-Completes_example :
    Completes validators client asked 2 budget
      (complete_live validators client asked false budget).result
      (complete_live validators client asked false budget).budget
complete_live-Completes_example =
    complete_live-Completes validators client asked false budget budget-IsWithin

complete_echo_iff_example : ((complete_echo validators asked "offline").status ≡ succeeded) ↔ (
    (validators.schema_errors (echo_output validators asked "offline") ≡ [])
    × (validators.binding_errors (echo_output validators asked "offline") ≡ []))
complete_echo_iff_example = complete_echo_iff validators asked "offline"

-- Between two other handoffs.
abbrev other : String → HandoffContract
other id = record first_handoff.control_contract { handoff_id = id }

resolve-echo_handoff_acknowledgements_example :
    let resolved =
      resolve_handoff_acknowledgements constant_digest "now" "out-b" "b" "B" first_handoff (
        echo_handoff_acknowledgements
          ((other "x" ∷ []) ++ first_handoff.control_contract ∷ other "y" ∷ [])) in
    (resolved.status ≡ consumed)
    × (resolved.receiving_output_id ≡ "out-b")
    × (resolved.resolution ≡ accepted)
unfolding blank is_space
resolve-echo_handoff_acknowledgements_example =
    resolve-echo_handoff_acknowledgements constant_digest "now" "out-b" "B" (other "x" ∷ [])
      (other "y" ∷ []) first_handoff refl refl refl refl

-- The second answer is taken; the first was charged too.
complete_live_test : (complete_live validators client asked false budget).budget.usage.llm_calls ≡ 2
unfolding complete_live correct reserve_model_call validated_response extract_json unfenced
    object_text strip lstrip rstrip is_space output_errors with_defaults specialist_output_errors
    cost_total
complete_live_test = refl
