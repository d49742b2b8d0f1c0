-- ===== src/Agents/Offline.antt =====
-- What the offline output comes to: when it is accepted, and what its acknowledgements do.
use Prim.Native.String.{String}
use world_class_seo_agent_sy.Prelude.{
  ◌≡◌, ◌↔◌, inl, inr, refl, ap, true, false, List, [], ◌∷◌, ◌++◌, map, is_empty, contains, texts_eq,
  sort_by, ◌==◌, eq_iff, eq_refl, if◌then◌else◌, Bool-cases, arith,
}
use world_class_seo_agent_sy.Prelude.Strings.{is_space, blank}
use world_class_seo_agent_sy.State.{HandoffContract, Handoff, consumed, accepted, challenged}
use world_class_seo_agent_sy.Handoff.Receipts.{Digest, seal_terminal_handoff}
use world_class_seo_agent_sy.Handoff.Resolve.{
  acks_for, ack_context_is_exact, resolve_one, resolve_handoff_acknowledgements,
}
use world_class_seo_agent_sy.Agents.Output.{
  schema_error, binding_error, succeeded, failed, Validators, Request, output_errors,
}
use world_class_seo_agent_sy.Agents.Echo.{
  echo_known, echo_known-errors, echo_output, complete_echo, echo_acknowledgement,
  echo_handoff_acknowledgements,
}

texts_eq_refl : (xs : List String) → texts_eq xs xs ≡ true
texts_eq_refl [] = refl
texts_eq_refl (x ∷ xs) = rw (eq_refl x) (texts_eq_refl xs)

-- The offline output of any agent succeeds exactly when the schema and the binding of evidence
-- admit it: its identity, its specialist decision and its synthetic state are never refused.
pub complete_echo_iff :
    {Body : Type 0} (v : Validators Body) (q : Request v) (echo_body : Body)
    → ((complete_echo v q echo_body).status ≡ succeeded) ↔ (
        (v.schema_errors (echo_output v q echo_body) ≡ [])
        × (v.binding_errors (echo_output v q echo_body) ≡ []))
unfolding complete_echo output_errors echo_known
complete_echo_iff v q echo_body =
    rw (echo_known-errors q.agent_name, known_agent)
      (cases (v.schema_errors (echo_output v q echo_body))
        (v.binding_errors (echo_output v q echo_body)))
  where
    known_agent : (◌==◌ q.agent_name q.agent_name) ≡ true
    known_agent = eq_refl q.agent_name

    cases :
        (schema binding : List String)
        → ((if is_empty (map schema_error schema ++ (map binding_error binding ++ []))
              then succeeded
              else failed)
            ≡ succeeded)
          ↔ ((schema ≡ []) × (binding ≡ []))
    cases [] [] = (λ h. (refl, refl), λ h. refl)
    cases [] (b ∷ binding) = (λ h. cc, λ h. cc)
    cases (s ∷ schema) binding = (λ h. cc, λ h. cc)

abbrev pub ids : List HandoffContract → List String
ids handoffs = map (λ h. h.handoff_id) handoffs

acks_for-other :
    (id : String) (handoffs : List HandoffContract)
    → contains (ids handoffs) id ≡ false
    → acks_for id (echo_handoff_acknowledgements handoffs) ≡ []
unfolding echo_handoff_acknowledgements echo_acknowledgement
acks_for-other id [] e = refl
acks_for-other id (h ∷ handoffs) e = ground (arith, acks_for-other id handoffs)

acks_for-one :
    (earlier later : List HandoffContract) (h : HandoffContract)
    → contains (ids earlier) h.handoff_id ≡ false
    → contains (ids later) h.handoff_id ≡ false
    → acks_for h.handoff_id (echo_handoff_acknowledgements (earlier ++ h ∷ later))
      ≡ echo_acknowledgement h ∷ []
unfolding echo_handoff_acknowledgements echo_acknowledgement
acks_for-one [] later h e f =
    rw (eq_refl h.handoff_id)
      (ap (λ xs. echo_acknowledgement h ∷ xs) (acks_for-other h.handoff_id later f))
acks_for-one (g ∷ earlier) later h e f =
    let other : (g.handoff_id == h.handoff_id) ≡ false = ground (arith, e) in
    rw other (acks_for-one earlier later h (ground (arith, e)) f)

echo_acknowledgement_exact :
    (h : Handoff) (output_id agent : String)
    → blank output_id ≡ false
    → agent ≡ h.to_agent
    → ack_context_is_exact h
        (echo_acknowledgement h.control_contract)
        output_id
        h.target_node_id
        agent
      ≡ true
unfolding ack_context_is_exact echo_acknowledgement
echo_acknowledgement_exact h output_id agent o a =
    rw
      (
        o,
        eq_refl h.target_node_id,
        (eq_iff agent h.to_agent).1 a,
        eq_refl h.requested_action,
        texts_eq_refl (sort_by (λ x. x) h.evidence_refs),
        texts_eq_refl (sort_by (λ x. x) h.acceptance_criteria),
      )
      refl

-- The acknowledgement is taken as given, once it is exact.
resolve_one-echo :
    (digest : Digest) (now output_id agent : String) (h : Handoff)
    → ack_context_is_exact h
        (echo_acknowledgement h.control_contract)
        output_id
        h.target_node_id
        agent
      ≡ true
    → let resolved =
        resolve_one digest now output_id h.target_node_id agent h
          (echo_acknowledgement h.control_contract) in
      (resolved.status ≡ consumed)
      × (resolved.receiving_output_id ≡ output_id)
      × (resolved.resolution ≡ (if is_empty h.evidence_refs then challenged else accepted))
unfolding resolve_one echo_acknowledgement seal_terminal_handoff blank is_space
resolve_one-echo digest now output_id agent h x = elim (Bool-cases (is_empty h.evidence_refs)) [
  | inl e ↦ rw (x, e) (refl, refl, refl)
  | inr e ↦ rw (x, e) (refl, refl, refl)
]

-- The offline acknowledgements of the handoffs to a node consume each of them that no other shares
-- its id with: it is accepted if it has evidence, and challenged otherwise.
pub resolve-echo_handoff_acknowledgements :
    (digest : Digest) (now output_id agent : String) (earlier later : List HandoffContract)
    (h : Handoff)
    → contains (ids earlier) h.handoff_id ≡ false
    → contains (ids later) h.handoff_id ≡ false
    → blank output_id ≡ false
    → agent ≡ h.to_agent
    → let resolved =
        resolve_handoff_acknowledgements digest now output_id h.target_node_id agent h
          (echo_handoff_acknowledgements (earlier ++ h.control_contract ∷ later)) in
      (resolved.status ≡ consumed)
      × (resolved.receiving_output_id ≡ output_id)
      × (resolved.resolution ≡ (if is_empty h.evidence_refs then challenged else accepted))
unfolding resolve_handoff_acknowledgements
resolve-echo_handoff_acknowledgements digest now output_id agent earlier later h e f o a =
    rw (acks_for-one earlier later h.control_contract e f, resolve_handoff_acknowledgements)
      (resolve_one-echo digest now output_id agent h
        (echo_acknowledgement_exact h output_id agent o a))
