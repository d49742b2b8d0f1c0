-- ===== src/Handoff/Reconcile.antt =====
-- `reconcile_required_handoffs` of runtime/handoff_governance.py. The report keeps the records
-- themselves; the aliases and the constant "scope" are left out.
use world_class_seo_agent_sy.Prelude.{
  ℕ, Bool, true, false, not, ◌&&◌, String, List, [], ◌∷◌, ◌++◌, Result, ok, ◌>>=◌, keep, is_empty,
  length, contains, if◌then◌else◌,
}
use world_class_seo_agent_sy.State.{Handoff, HandoffStatus, created, consumed, Resolution, accepted}
use world_class_seo_agent_sy.Graph.Nodes.{WorkflowGraph}
use world_class_seo_agent_sy.Graph.Build.{dedupe}
use world_class_seo_agent_sy.Handoff.Receipts.{Digest, terminal_receipt_is_valid}
use world_class_seo_agent_sy.Handoff.Edges.{
  Issue, issue, unexpected_handoff, evidence_free_acceptance, silently_dropped_handoff, States,
  Outputs, KeyError, status_is, matches, of_session, index_handoffs, audit_graph_edges,
  drop_pending,
}
use world_class_seo_agent_sy.Handoff.Controls.{audit_declared_controls}

abbrev pub is_accepted : Resolution → Bool
is_accepted accepted = true
is_accepted _ = false

unfoldable pub terminal_semantic_invariant_issues : List Handoff → List Issue
terminal_semantic_invariant_issues [] = []
terminal_semantic_invariant_issues (h ∷ hs) =
    let rest = terminal_semantic_invariant_issues hs in
    if status_is h.status consumed && is_accepted h.resolution && is_empty h.evidence_refs
    then issue evidence_free_acceptance h.handoff_id ++ rest
    else rest

unfoldable pub unexpected_handoffs : String → List String → List Handoff → List Issue
unexpected_handoffs session_id allowed [] = []
unexpected_handoffs session_id allowed (h ∷ hs) =
    let rest = unexpected_handoffs session_id allowed hs in
    if of_session session_id h.handoff_id && not (contains allowed h.handoff_id)
    then issue unexpected_handoff h.handoff_id ++ rest
    else rest

-- An item of "unresolved".
pub record Unresolved : Type 0 where
  pub handoff_id : String
  pub status : HandoffStatus
  pub reason : String

unfoldable pub unresolved_of : List Handoff → List Unresolved
unresolved_of [] = []
unresolved_of (h ∷ hs) =
    let rest = unresolved_of hs in
    if status_is h.status consumed
    then rest
    else record { handoff_id = h.handoff_id; status = h.status; reason = h.unresolved_reason }
      ∷ rest

pub record Governance : Type 0 where
  pub passes : Bool
  pub expected_dependency_handoffs : ℕ
  pub declared_risk_control_handoffs : ℕ
  pub consumed_dependency_handoffs : ℕ
  pub issues : List Issue
  pub unresolved : List Unresolved
  pub handoffs : List Handoff

module _ (digest : Digest) where
  -- `_finalize_pending`: the change of a record, and the issues.
  abbrev pub finalize : Handoff → Handoff
  finalize h =
      if status_is h.status created
      then drop_pending digest
          "No addressed output consumed this handoff before workflow completion." h
      else h

  unfoldable pub finalize_pending : List Handoff → List Issue × List Handoff
  finalize_pending [] = ([], [])
  finalize_pending (h ∷ hs) =
      let rest = finalize_pending hs in
      (
        (if status_is h.status created then issue silently_dropped_handoff h.handoff_id else [])
            ++ rest.0,
        finalize h ∷ rest.1,
      )

  abbrev pub is_consumed_once : List Handoff → Bool
  is_consumed_once [] = false
  is_consumed_once (h ∷ hs) =
      is_empty hs && status_is h.status consumed && terminal_receipt_is_valid digest h

  unfoldable pub reconcile_required_handoffs :
      String → WorkflowGraph → States → Outputs → List Handoff → Result KeyError Governance
  unfolding finalize_pending unresolved_of unexpected_handoffs terminal_semantic_invariant_issues
  reconcile_required_handoffs session_id g states outputs handoffs =
      audit_graph_edges digest session_id g states outputs handoffs >>= λ edges.
      let controls = audit_declared_controls digest g.declared_control_handoffs outputs edges.2 in
      let final = finalize_pending controls.2 in
      let records = final.1 in
      let expected = dedupe edges.0 in
      let issues =
        index_handoffs handoffs session_id
        ++ edges.1
        ++ controls.1
        ++ terminal_semantic_invariant_issues controls.2
        ++ unexpected_handoffs session_id (edges.0 ++ controls.0) controls.2
        ++ final.0 in
      ok (record {
        passes = is_empty issues && is_empty (unresolved_of records);
        expected_dependency_handoffs = length expected;
        declared_risk_control_handoffs = length controls.0;
        consumed_dependency_handoffs =
            length (keep (λ handoff_id. is_consumed_once (matches handoff_id records)) expected);
        issues = issues;
        unresolved = unresolved_of records;
        handoffs = records;
      })
