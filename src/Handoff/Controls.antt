-- ===== src/Handoff/Controls.antt =====
-- runtime/handoff_control_governance.py: the audit of the controls that the graph declares.
use world_class_seo_agent_sy.Prelude.{
  Bool, true, false, not, ◌&&◌, ◌||◌, String, Option, none, some, List, [], ◌∷◌, ◌++◌, find, subset,
  contains, ◌==◌, texts_eq, if◌then◌else◌,
}
use world_class_seo_agent_sy.State.{HandoffContract, Handoff, created}
use world_class_seo_agent_sy.Graph.Nodes.{
  ContractValue, contract, other_dict, not_dict, ControlDeclaration,
}
use world_class_seo_agent_sy.Handoff.Receipts.{Digest, terminal_receipt_is_valid}
use world_class_seo_agent_sy.Handoff.Resolve.{is_text}
use world_class_seo_agent_sy.Handoff.Edges.{
  Issue, issue, invalid_control_declaration, missing_control_handoff, invalid_control_handoff,
  silently_dropped_handoff, wrong_consumer, invalid_terminal_receipt, Outputs, output_of, status_is,
  terminal_has_wrong_consumer, update_first, drop_pending,
}

-- `str(contract.get("handoff_id", "")) if isinstance(contract, dict) else ""`
abbrev pub declared_id : ContractValue → String
declared_id (contract c) = c.handoff_id
declared_id (other_dict handoff_id) = handoff_id
declared_id not_dict = ""

abbrev pub is_dict : ContractValue → Bool
is_dict not_dict = false
is_dict _ = true

unfoldable pub valid_declaration_shape : ControlDeclaration → Bool
valid_declaration_shape d =
    subset d.keys ("control_type" ∷ "handoff" ∷ [])
    && subset ("control_type" ∷ "handoff" ∷ []) d.keys
    && is_text d.control_type "OPEN_RISK_ESCALATION"
    && is_dict d.handoff

-- `handoff.control_contract() == contract`
unfoldable pub contract_eq : HandoffContract → ContractValue → Bool
contract_eq h (contract c) =
    h.handoff_id == c.handoff_id
    && h.from_agent == c.from_agent
    && h.to_agent == c.to_agent
    && h.reason == c.reason
    && h.context_summary == c.context_summary
    && texts_eq h.evidence_refs c.evidence_refs
    && h.requested_action == c.requested_action
    && h.risk_level == c.risk_level
    && texts_eq h.acceptance_criteria c.acceptance_criteria
    && h.due_trigger == c.due_trigger
    && h.source_node_id == c.source_node_id
    && h.target_node_id == c.target_node_id
contract_eq h _ = false

-- `_wrong_consumer`: the test of the edges, with the handoff's own target and recipient.
unfoldable pub wrong_control_consumer : Handoff → Outputs → Bool
wrong_control_consumer h outputs =
    terminal_has_wrong_consumer h h.target_node_id h.to_agent (output_of h.target_node_id outputs)

module _ (digest : Digest) where
  -- `_audit_control`, on the first of the records with the id.
  unfoldable pub audit_control :
      ContractValue → Option Handoff → String → Outputs → List Handoff → List Issue × List Handoff
  unfolding contract_eq wrong_control_consumer
  audit_control c none handoff_id outputs records =
      (issue missing_control_handoff handoff_id, records)
  audit_control c (some h) handoff_id outputs records =
      if not (contract_eq h.control_contract c)
      then (issue invalid_control_handoff h.handoff_id, records)
      else if status_is h.status created
      then (
        issue silently_dropped_handoff h.handoff_id,
        update_first
            (drop_pending digest "No exact acknowledgement resolved this declared control handoff.")
            handoff_id records,
      )
      else if wrong_control_consumer h outputs
      then (issue wrong_consumer h.handoff_id, records)
      else if not (terminal_receipt_is_valid digest h)
      then (issue invalid_terminal_receipt h.handoff_id, records)
      else ([], records)

  -- The loop of `audit_declared_controls`, with `declared_ids` so far.
  unfoldable pub audit_controls :
      Outputs
      → List String
      → List ControlDeclaration
      → List Handoff
      → List String × List Issue × List Handoff
  unfolding audit_control valid_declaration_shape
  audit_controls outputs declared [] records = (declared, [], records)
  audit_controls outputs declared (d ∷ ds) records =
      let handoff_id = declared_id d.handoff in
      let skipped = audit_controls outputs declared ds records in
      let (issues, left) =
        audit_control d.handoff (find (λ h. h.handoff_id == handoff_id) records) handoff_id outputs
          records in
      let audited = audit_controls outputs (handoff_id ∷ declared) ds left in
      if not (valid_declaration_shape d) || handoff_id == "" || contains declared handoff_id
      then (skipped.0, issue invalid_control_declaration handoff_id ++ skipped.1, skipped.2)
      else (audited.0, issues ++ audited.1, audited.2)

  unfoldable pub audit_declared_controls :
      List ControlDeclaration → Outputs → List Handoff → List String × List Issue × List Handoff
  unfolding audit_controls
  audit_declared_controls declarations outputs records =
      audit_controls outputs [] declarations records
