-- ===== src/Runner/Reconcile.antt =====
-- `_reconcile_outputs` of runtime/workflow_runner.py and `default_governance_decision` of
-- runtime/workflow_run_support.py. The registry's view of an output is the parameter `read`, the check
-- of a decision against its schema is the parameter `admits`.
use Prim.Native.String.{◌++◌ as append}
use world_class_seo_agent_sy.Prelude.{
  Bool, ◌&&◌, String, List, [], ◌∷◌, ◌++◌, map, all, is_empty, lookup, Result, ok, err, ◌>>=◌,
  if◌then◌else◌,
}
use world_class_seo_agent_sy.Handoff.Outputs.{AgentOutput}
use world_class_seo_agent_sy.Handoff.Edges.{States, Outputs, is_completed}
use world_class_seo_agent_sy.Findings.Registry.{
  Output, FindingRecord, add_output, records, accept_all_without_conflict,
}
use world_class_seo_agent_sy.Findings.Conflicts.{Conflict, conflicts}
use world_class_seo_agent_sy.Findings.Decisions.{
  approve, defer, Decision, EvidenceError, build_decisions,
}
use world_class_seo_agent_sy.Runner.Support.{scrum_completed}
use world_class_seo_agent_sy.Runner.Nodes.{id_of}
use world_class_seo_agent_sy.Runner.Finalize.{has_synthetic}

-- The outputs of the completed nodes, in the order of the dict.
unfoldable pub completed_outputs : Outputs → States → List AgentOutput
completed_outputs [] states = []
completed_outputs ((node_id, output) ∷ outputs) states =
    let rest = completed_outputs outputs states in
    if is_completed (lookup node_id states) then output ∷ rest else rest

-- `FindingRegistry()`, then `add_output` for each output
unfoldable pub register : List Output → List FindingRecord → List FindingRecord
unfolding add_output
register [] rs = rs
register (output ∷ outputs) rs = register outputs (add_output output rs)

-- `[str(item.get("id")) for item in findings if item.get("id")]`
abbrev pub record_ids : List FindingRecord → List String
record_ids [] = []
record_ids (r ∷ rs) = id_of r.finding.id ++ record_ids rs

unfoldable pub default_governance_decision : String → List FindingRecord → States → Decision
default_governance_decision session_id findings states = record {
  decision_id = append session_id "-decision-governance-001";
  proposal = "Advance the validated findings to strategy and reporting.";
  decision = if has_synthetic states then defer else approve;
  evidence = record_ids findings;
}

-- The decisions, with the default one where the Scrummaster has completed and there is none.
unfoldable pub with_default :
    String → List AgentOutput → List FindingRecord → States → List Decision → List Decision
unfolding default_governance_decision
with_default session_id completed findings states decisions =
    if scrum_completed completed && is_empty decisions
    then default_governance_decision session_id findings states ∷ []
    else decisions

-- A decision that cannot be built, or one that its schema refuses.
pub data ReconcileError : Type 0 where
  unfounded : EvidenceError → ReconcileError
  not_admitted : ReconcileError

abbrev pub or_unfounded {ℓ} : {A : Type ℓ} → Result EvidenceError A → Result ReconcileError A
or_unfounded (ok a) = ok a
or_unfounded (err e) = err (unfounded e)

-- What the steps of `_reconcile_outputs` leave.
pub record Reconciled : Type 0 where
  pub completed : List AgentOutput
  pub findings : List FindingRecord
  pub found_conflicts : List Conflict
  pub decisions : List Decision

abbrev pub conflict_keys : List Conflict → List String
conflict_keys [] = []
conflict_keys (c ∷ cs) = c.record_keys ++ conflict_keys cs

module _ (read : AgentOutput → Output) (admits : Decision → Bool) where
  unfoldable pub reconcile_outputs : String → Outputs → States → Result ReconcileError Reconciled
  unfolding completed_outputs register conflicts accept_all_without_conflict records build_decisions
  reconcile_outputs session_id outputs states =
      let completed = completed_outputs outputs states in
      let views = map read completed in
      let found = conflicts views (register views []) in
      let findings = records (accept_all_without_conflict (conflict_keys found.0) found.1) in
      or_unfounded (build_decisions found.0 findings) >>= λ built.
      let decisions = with_default session_id completed findings states built in
      if all admits decisions
      then ok (record {
        completed = completed;
        findings = findings;
        found_conflicts = found.0;
        decisions = decisions;
      })
      else err not_admitted
