-- ===== src/Handoff/Acks.antt =====
-- When a handoff is consumed, and what every resolution leaves.
use mathlib.Core.List.{Perm}
use mathlib.Core.List.Perm
use world_class_seo_agent_sy.Prelude.Sorting.{sort_by-perm}
use world_class_seo_agent_sy.Prelude.{
  ◌≡◌, ◌≢◌, ◌⊎◌, inl, inr, refl, true, false, not, ◌&&◌, String, Option, none, some, List, [], ◌∷◌,
  is_empty, same_texts, texts_eq-eq, sort_by, ap, arith, eq_iff, Bool-cases,
}
use world_class_seo_agent_sy.Prelude.Strings.{blank}
use world_class_seo_agent_sy.State.{Handoff, created, consumed}
use world_class_seo_agent_sy.Handoff.Outputs.{Acknowledgement}
use world_class_seo_agent_sy.Handoff.Receipts.{
  Digest, seal_terminal_handoff, terminal_receipt_is_valid, valid-seal,
}
use world_class_seo_agent_sy.Handoff.Resolve.{
  is_text, acks_for, ack_context_is_exact, invalid_ack, resolve_one,
  resolve_handoff_acknowledgements,
}

pub is_text-some :
    (value : Option String) (text : String) → is_text value text ≡ true → value ≡ some text
is_text-some none text h = cc
is_text-some (some v) text h = ap some ((eq_iff v text).0 h)

same_texts-perm : (xs ys : List String) → same_texts xs ys ≡ true → Perm xs ys
same_texts-perm xs ys h =
    let same = texts_eq-eq (sort_by (λ x. x) xs) (sort_by (λ y. y) ys) h in
    Perm.trans (Perm.symm (sort_by-perm (λ x. x) xs)) (rw same (sort_by-perm (λ y. y) ys))

-- An acknowledgement that is exact in every part.
pub record IsExact (output_id node_id output_agent : String) (h : Handoff) (ack : Acknowledgement)
    : Type 0 where
  pub action : ack.requested_action_addressed ≡ some h.requested_action
  pub evidence : Perm ack.evidence_refs_addressed h.evidence_refs
  pub criteria : Perm ack.acceptance_criteria_addressed h.acceptance_criteria
  pub recipient : node_id ≡ h.target_node_id
  pub agent : output_agent ≡ h.to_agent
  pub output : blank output_id ≡ false

ack_context-IsExact :
    (h : Handoff) (ack : Acknowledgement) (output_id node_id output_agent : String)
    → ack_context_is_exact h ack output_id node_id output_agent ≡ true
    → IsExact output_id node_id output_agent h ack
unfolding ack_context_is_exact
ack_context-IsExact h ack output_id node_id output_agent e = record {
  action = is_text-some ack.requested_action_addressed h.requested_action (ground arith);
  evidence = same_texts-perm ack.evidence_refs_addressed h.evidence_refs (ground arith);
  criteria = same_texts-perm ack.acceptance_criteria_addressed h.acceptance_criteria (ground arith);
  recipient = (eq_iff node_id h.target_node_id).0 (ground arith);
  agent = (eq_iff output_agent h.to_agent).0 (ground arith);
  output = ground arith;
}

module _ (digest : Digest) (now output_id node_id output_agent : String) where
  abbrev resolved : Handoff → List Acknowledgement → Handoff
  resolved h acks =
      resolve_handoff_acknowledgements digest now output_id node_id output_agent h acks

  -- How a handoff may be consumed.
  abbrev pub Disposition : Handoff → Acknowledgement → Type 0
  Disposition h ack =
      ((ack.disposition ≡ some "ACCEPTED") × (h.evidence_refs ≢ []))
      ⊎ (ack.disposition ≡ some "CHALLENGED")

  resolve_one_consumed :
      (h : Handoff) (ack : Acknowledgement)
      → (resolve_one digest now output_id node_id output_agent h ack).status ≡ consumed
      → (ack_context_is_exact h ack output_id node_id output_agent ≡ true)
        × (blank ack.resolution_note ≡ false)
        × Disposition h ack
  unfolding resolve_one seal_terminal_handoff
  resolve_one_consumed h ack e = (
    ground arith,
    ground arith,
    elim (Bool-cases (is_text ack.disposition "CHALLENGED")) [
      | inl c ↦ inr (is_text-some ack.disposition "CHALLENGED" c)
      | inr c ↦ inl (is_text-some ack.disposition "ACCEPTED" (ground (arith, c)), ground (arith, c))
    ],
  )

  -- A terminal version of a handoff, with a valid receipt.
  pub record IsSealed (h h' : Handoff) : Type 0 where
    pub contract : h'.control_contract ≡ h.control_contract
    pub terminal : h'.status ≢ created
    pub receipt : terminal_receipt_is_valid digest h' ≡ true

  IsSealed-seal :
      (h u : Handoff)
      → u.control_contract ≡ h.control_contract
      → u.status ≢ created
      → IsSealed h (seal_terminal_handoff digest u)
  IsSealed-seal h u same terminal = record {
    contract = unfold seal_terminal_handoff in same;
    terminal = unfold seal_terminal_handoff in terminal;
    receipt = valid-seal digest u;
  }

  IsSealed-resolve_one :
      (h : Handoff) (ack : Acknowledgement)
      → IsSealed h (resolve_one digest now output_id node_id output_agent h ack)
  unfolding resolve_one
  IsSealed-resolve_one h ack =
      let exact = ack_context_is_exact h ack output_id node_id output_agent in
      let noted = not (blank ack.resolution_note) in
      elim (Bool-cases (is_text ack.disposition "UNRESOLVED" && exact && noted)) [
        | inl e ↦ rw e (IsSealed-seal h _ refl (λ x. cc x))
        | inr e ↦
            rw e
              (elim (Bool-cases (
                is_text ack.disposition "ACCEPTED"
                && exact
                && noted
                && not (is_empty h.evidence_refs))) [
                  | inl f ↦ rw f (IsSealed-seal h _ refl (λ x. cc x))
                  | inr f ↦
                      rw f
                        (elim (Bool-cases
                          (is_text ack.disposition "CHALLENGED" && exact && noted)) [
                            | inl g ↦ rw g (IsSealed-seal h _ refl (λ x. cc x))
                            | inr g ↦ rw g (IsSealed-seal h _ refl (λ x. cc x))
                          ])
                ])
      ]

  -- What the acknowledgements of a handoff have to be for it to be consumed.
  pub record IsAccepted (h : Handoff) (acks : List Acknowledgement) : Type 0 where
    pub ack : Acknowledgement
    pub only : acks_for h.handoff_id acks ≡ ack ∷ []
    pub exact : IsExact output_id node_id output_agent h ack
    pub note : blank ack.resolution_note ≡ false
    pub disposition : Disposition h ack

  -- A pending handoff is consumed only on exactly one acknowledgement, which names the requested
  -- action, the evidence and the criteria of the handoff, each as often as it stands there, comes
  -- from the addressed node and agent with an output id, has a note, and challenges the handoff or
  -- accepts one that carries evidence.
  pub resolve-IsAccepted :
      (h : Handoff) (acks : List Acknowledgement)
      → h.status ≡ created
      → (resolved h acks).status ≡ consumed
      → IsAccepted h acks
  unfolding resolve_handoff_acknowledgements
  resolve-IsAccepted h acks c e = by_matches (acks_for h.handoff_id acks) refl
    where
      by_matches :
          (matches : List Acknowledgement)
          → acks_for h.handoff_id acks ≡ matches
          → IsAccepted h acks
      by_matches [] same = absurd (ground (arith, same))
      by_matches (ack ∷ []) same =
          let done : (resolve_one digest now output_id node_id output_agent h ack).status
              ≡ consumed =
            ground (arith, same) in
          let (exact, note, disposition) = resolve_one_consumed h ack done in
          record {
            ack = ack;
            only = same;
            exact = ack_context-IsExact h ack output_id node_id output_agent exact;
            note = note;
            disposition = disposition;
          }
      by_matches (ack ∷ other ∷ more) same =
          absurd (unfold invalid_ack seal_terminal_handoff in ground (arith, same))

  -- A resolution leaves a handoff without acknowledgement as it was, and seals any other: terminal,
  -- with a valid receipt, and with the same contract.
  pub resolve-IsSealed :
      (h : Handoff) (acks : List Acknowledgement)
      → (acks_for h.handoff_id acks ≡ []) × (resolved h acks ≡ h)
        ⊎ (acks_for h.handoff_id acks ≢ []) × IsSealed h (resolved h acks)
  unfolding resolve_handoff_acknowledgements
  resolve-IsSealed h acks = by_matches (acks_for h.handoff_id acks) refl
    where
      by_matches :
          (matches : List Acknowledgement)
          → acks_for h.handoff_id acks ≡ matches
          → (acks_for h.handoff_id acks ≡ []) × (resolved h acks ≡ h)
            ⊎ (acks_for h.handoff_id acks ≢ []) × IsSealed h (resolved h acks)
      by_matches [] same = inl (same, rw (same, resolve_handoff_acknowledgements))
      by_matches (ack ∷ []) same = inr (
        rw same (λ x. cc x),
        rw (same, resolve_handoff_acknowledgements) (IsSealed-resolve_one h ack),
      )
      by_matches (ack ∷ other ∷ more) same = inr (
        rw same (λ x. cc x),
        rw (same, resolve_handoff_acknowledgements)
            (unfold invalid_ack in IsSealed-seal h _ refl (λ x. cc x)),
      )
