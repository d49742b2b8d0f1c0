-- ===== src/Handoff/Resolve.antt =====
-- `resolve_handoff_acknowledgements` of runtime/handoff_governance.py. It changes the handoff in place:
-- here it returns the handoff as it is left.
use world_class_seo_agent_sy.Prelude.{
  Bool, false, not, ◌&&◌, String, Option, none, some, List, [], ◌∷◌, keep, is_empty, ◌==◌,
  same_texts, if◌then◌else◌,
}
use world_class_seo_agent_sy.Prelude.Strings.{blank}
use world_class_seo_agent_sy.State.{Handoff, accepted, challenged, consume, block}
use world_class_seo_agent_sy.Handoff.Outputs.{Acknowledgement}
use world_class_seo_agent_sy.Handoff.Receipts.{Digest, seal_terminal_handoff}

-- `value == text`, for the value of a key that may be missing
abbrev pub is_text : Option String → String → Bool
is_text none text = false
is_text (some value) text = value == text

abbrev pub acks_for : String → List Acknowledgement → List Acknowledgement
acks_for handoff_id acks = keep (λ a. is_text a.handoff_id handoff_id) acks

unfoldable pub ack_context_is_exact : Handoff → Acknowledgement → String → String → String → Bool
ack_context_is_exact h ack output_id node_id output_agent =
    not (blank output_id)
    && node_id == h.target_node_id
    && output_agent == h.to_agent
    && is_text ack.requested_action_addressed h.requested_action
    && same_texts ack.evidence_refs_addressed h.evidence_refs
    && same_texts ack.acceptance_criteria_addressed h.acceptance_criteria

module _ (digest : Digest) where
  unfoldable pub invalid_ack : Handoff → String → Handoff
  invalid_ack h reason = seal_terminal_handoff digest (block reason h)

  -- One acknowledgement: the three branches on the disposition.
  unfoldable pub resolve_one :
      (now output_id node_id output_agent : String) → Handoff → Acknowledgement → Handoff
  unfolding invalid_ack
  resolve_one now output_id node_id output_agent h ack =
      let exact = ack_context_is_exact h ack output_id node_id output_agent in
      let noted = not (blank ack.resolution_note) in
      if is_text ack.disposition "UNRESOLVED" && exact && noted
      then seal_terminal_handoff digest (
          block ack.resolution_note
            (record h { receiving_output_id = output_id; receiving_node_id = node_id }))
      else if is_text ack.disposition "ACCEPTED" && exact && noted && not (is_empty h.evidence_refs)
      then seal_terminal_handoff digest (consume now output_id node_id accepted h)
      else if is_text ack.disposition "CHALLENGED" && exact && noted
      then seal_terminal_handoff digest (consume now output_id node_id challenged h)
      else invalid_ack h
          "Invalid acknowledgement: exact recipient, output, action, evidence, criteria, disposition, and nonblank resolution note are required."

  unfoldable pub resolve_handoff_acknowledgements :
      (now output_id node_id output_agent : String) → Handoff → List Acknowledgement → Handoff
  unfolding resolve_one
  resolve_handoff_acknowledgements now output_id node_id output_agent h acks =
      elim (acks_for h.handoff_id acks) [
        | [] ↦ h
        | ack ∷ more ↦
            if is_empty more
            then resolve_one now output_id node_id output_agent h ack
            else invalid_ack h "Duplicate acknowledgements were returned for this handoff."
      ]
