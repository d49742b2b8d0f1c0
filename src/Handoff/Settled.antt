-- ===== src/Handoff/Settled.antt =====
-- What a reconciliation does to the records: each stays as it is, or is blocked and sealed.
use world_class_seo_agent_sy.Prelude.{
  ◌≡◌, ◌≢◌, ◌⊎◌, inl, inr, refl, true, not, ◌||◌, String, some, List, [], ◌∷◌, Ensures,
  Ensures-total, ℕ, ok, Ensures-bind, Ensures-any, find, contains, ◌==◌, Bool-cases, Option-cases,
  All, arith,
}
use world_class_seo_agent_sy.State.{Handoff, HandoffStatus, created, consumed, block}
use world_class_seo_agent_sy.Graph.Nodes.{
  WorkflowNode, WorkflowGraph, ContractValue, ControlDeclaration,
}
use world_class_seo_agent_sy.Graph.Validate.{node_of}
use world_class_seo_agent_sy.Graph.Validate.{validate}
use world_class_seo_agent_sy.Handoff.Totals.{reconcile-total}
use world_class_seo_agent_sy.Handoff.Outputs.{AgentOutput}
use world_class_seo_agent_sy.Handoff.Receipts.{
  Digest, seal_terminal_handoff, terminal_receipt_is_valid, valid-seal,
}
use world_class_seo_agent_sy.Handoff.Edges.{
  Edge, States, Outputs, output_of, or_text, status_is, update_first, expected_handoff_id,
  sender_agent, drop_pending, terminal_has_wrong_consumer, required_edges, audit_terminal,
  audit_required_edge, audit_edges, audit_graph_edges,
}
use world_class_seo_agent_sy.Handoff.Controls.{
  declared_id, valid_declaration_shape, contract_eq, wrong_control_consumer, audit_control,
  audit_controls, audit_declared_controls,
}
use world_class_seo_agent_sy.Handoff.Reconcile.{
  Governance, finalize_pending, reconcile_required_handoffs,
}

module _ (digest : Digest) where
  -- A pending handoff that is dropped: blocked, with a valid receipt and the same contract.
  pub record IsDropped (h h' : Handoff) : Type 0 where
    pub pending : h.status ≡ created
    pub status : h'.status ≡ HandoffStatus.blocked
    pub contract : h'.control_contract ≡ h.control_contract
    pub receipt : terminal_receipt_is_valid digest h' ≡ true

  abbrev pub Settles : Handoff → Handoff → Type 0
  Settles h h' = (h' ≡ h) ⊎ IsDropped h h'

  -- Record by record, in the same places.
  abbrev pub AllSettle : List Handoff → List Handoff → Type 0
  AllSettle [] [] = Unit
  AllSettle [] (h' ∷ hs') = ⊥
  AllSettle (h ∷ hs) [] = ⊥
  AllSettle (h ∷ hs) (h' ∷ hs') = Settles h h' × AllSettle hs hs'

  AllSettle-refl : (hs : List Handoff) → AllSettle hs hs
  AllSettle-refl [] = tt
  AllSettle-refl (h ∷ hs) = (inl refl, AllSettle-refl hs)

  Settles-trans : (h₁ h₂ h₃ : Handoff) → Settles h₁ h₂ → Settles h₂ h₃ → Settles h₁ h₃
  Settles-trans h₁ h₂ h₃ (inl e) s = rw (← e) s
  Settles-trans h₁ h₂ h₃ (inr d) (inl e) = inr (rw e d)
  Settles-trans h₁ h₂ h₃ (inr d) (inr d') = absurd (cc (d.status, d'.pending))

  AllSettle-trans : (xs ys zs : List Handoff) → AllSettle xs ys → AllSettle ys zs → AllSettle xs zs
  AllSettle-trans [] [] [] s t = tt
  AllSettle-trans [] [] (z ∷ zs) s t = t
  AllSettle-trans [] (y ∷ ys) zs s t = absurd s
  AllSettle-trans (x ∷ xs) [] zs s t = absurd s
  AllSettle-trans (x ∷ xs) (y ∷ ys) [] s t = t
  AllSettle-trans (x ∷ xs) (y ∷ ys) (z ∷ zs) s t =
      (Settles-trans x y z s.0 t.0, AllSettle-trans xs ys zs s.1 t.1)

  created-of : (status : HandoffStatus) → status_is status created ≡ true → status ≡ created
  created-of created h = refl
  created-of consumed h = cc
  created-of HandoffStatus.blocked h = cc

  IsDropped-drop :
      (reason : String) (h : Handoff)
      → h.status ≡ created
      → IsDropped h (drop_pending digest reason h)
  IsDropped-drop reason h c = record {
    pending = c;
    status = unfold seal_terminal_handoff in refl;
    contract = unfold seal_terminal_handoff in refl;
    receipt = valid-seal digest (block reason h);
  }

  AllSettle-update_first :
      (reason handoff_id : String) (h : Handoff) (records : List Handoff)
      → find (λ r. r.handoff_id == handoff_id) records ≡ some h
      → h.status ≡ created
      → AllSettle records (update_first (drop_pending digest reason) handoff_id records)
  AllSettle-update_first reason handoff_id h [] e c = tt
  AllSettle-update_first reason handoff_id h (r ∷ rs) e c =
      elim (Bool-cases (r.handoff_id == handoff_id)) [
        | inl t ↦ rw t (inr (IsDropped-drop reason r (ground (arith, t))), AllSettle-refl rs)
        | inr f ↦
            rw f (inl refl, AllSettle-update_first reason handoff_id h rs (ground (arith, f)) c)
      ]

  AllSettle-edge :
      (handoff_id dependency_id node_id node_agent expected_sender : String)
      (receiver : AgentOutput) (records : List Handoff)
      → AllSettle records
          (audit_required_edge digest handoff_id dependency_id node_id node_agent expected_sender
            receiver
            (find (λ r. r.handoff_id == handoff_id) records)
            records).1
  unfolding audit_required_edge audit_terminal
  AllSettle-edge handoff_id dependency_id node_id node_agent expected_sender receiver records =
      elim (Option-cases (find (λ r. r.handoff_id == handoff_id) records)) [
        | inl e ↦ rw e (AllSettle-refl records)
        | inr (h, e) ↦
            rw e (elim (Bool-cases (terminal_has_wrong_consumer h node_id node_agent receiver)) [
              | inl w ↦ rw w (AllSettle-refl records)
              | inr w ↦ rw w (elim (Bool-cases (status_is h.status created)) [
                | inl c ↦
                    rw c (AllSettle-update_first _ handoff_id h records e (created-of h.status c))
                | inr c ↦ rw c (elim (Bool-cases (terminal_receipt_is_valid digest h)) [
                  | inl v ↦ rw v (AllSettle-refl records)
                  | inr v ↦ rw v (AllSettle-refl records)
                ])
              ])
            ])
      ]

  -- An audit that returns settles the records.
  pub AllSettle-edges :
      (session_id : String) (nodes : List WorkflowNode) (outputs : Outputs) (edges : List Edge)
      (records : List Handoff)
      → Ensures
          (λ a. AllSettle records a.2)
          (λ e. Unit)
          (audit_edges digest session_id nodes outputs edges records)
  unfolding audit_edges
  AllSettle-edges session_id nodes outputs [] records = AllSettle-refl records
  AllSettle-edges session_id nodes outputs (e ∷ edges) records =
      let handoff_id = expected_handoff_id session_id e.node.id e.index in
      Ensures-bind (λ agent. Unit) (λ a. AllSettle records a.2) (λ x. Unit)
        (sender_agent (node_of nodes e.dependency_id) e.dependency_id) _ (Ensures-any _)
        (λ agent u.
          let sender = or_text (output_of e.dependency_id outputs).agent agent in
          let receiver = output_of e.node.id outputs in
          let step =
            AllSettle-edge handoff_id e.dependency_id e.node.id e.node.agent sender receiver
              records in
          Ensures-bind _ (λ a. AllSettle records a.2) (λ x. Unit)
            (audit_edges digest session_id nodes outputs edges _) _
            (AllSettle-edges session_id nodes outputs edges _)
            (λ later settled. AllSettle-trans records _ later.2 step settled))

  AllSettle-control :
      (c : ContractValue) (handoff_id : String) (outputs : Outputs) (records : List Handoff)
      → AllSettle records
          (audit_control digest c
            (find (λ r. r.handoff_id == handoff_id) records)
            handoff_id
            outputs
            records).1
  unfolding audit_control
  AllSettle-control c handoff_id outputs records =
      elim (Option-cases (find (λ r. r.handoff_id == handoff_id) records)) [
        | inl e ↦ rw e (AllSettle-refl records)
        | inr (h, e) ↦ rw e (elim (Bool-cases (contract_eq h.control_contract c)) [
          | inr w ↦ rw w (AllSettle-refl records)
          | inl w ↦ rw w (elim (Bool-cases (status_is h.status created)) [
            | inl s ↦ rw s (AllSettle-update_first _ handoff_id h records e (created-of h.status s))
            | inr s ↦ rw s (elim (Bool-cases (wrong_control_consumer h outputs)) [
              | inl v ↦ rw v (AllSettle-refl records)
              | inr v ↦ rw v (elim (Bool-cases (terminal_receipt_is_valid digest h)) [
                | inl x ↦ rw x (AllSettle-refl records)
                | inr x ↦ rw x (AllSettle-refl records)
              ])
            ])
          ])
        ])
      ]

  pub AllSettle-controls :
      (outputs : Outputs) (declared : List String) (ds : List ControlDeclaration)
      (records : List Handoff)
      → AllSettle records (audit_controls digest outputs declared ds records).2
  unfolding audit_controls
  AllSettle-controls outputs declared [] records = AllSettle-refl records
  AllSettle-controls outputs declared (d ∷ ds) records =
      let handoff_id = declared_id d.handoff in
      elim (Bool-cases
        (not (valid_declaration_shape d) || handoff_id == "" || contains declared handoff_id)) [
          | inl e ↦ rw e (AllSettle-controls outputs declared ds records)
          | inr e ↦ rw e (
              AllSettle-trans records _ _ (AllSettle-control d.handoff handoff_id outputs records)
                (AllSettle-controls outputs (handoff_id ∷ declared) ds _))
        ]

  pub AllSettle-finalize :
      (records : List Handoff) → AllSettle records (finalize_pending digest records).1
  unfolding finalize_pending
  AllSettle-finalize [] = tt
  AllSettle-finalize (h ∷ hs) = elim (Bool-cases (status_is h.status created)) [
    | inl c ↦ rw c (inr (IsDropped-drop _ h (created-of h.status c)), AllSettle-finalize hs)
    | inr c ↦ rw c (inl refl, AllSettle-finalize hs)
  ]

  -- After the last step no record is pending.
  finalize-terminal :
      (records : List Handoff) → All (λ h. h.status ≢ created) (finalize_pending digest records).1
  unfolding finalize_pending seal_terminal_handoff
  finalize-terminal [] = tt
  finalize-terminal (h ∷ hs) = elim (Bool-cases (status_is h.status created)) [
    | inl c ↦ rw c (λ x. cc x, finalize-terminal hs)
    | inr c ↦ rw c (λ x. ground (arith, x, c), finalize-terminal hs)
  ]

  -- What a report says of the records.
  pub record IsSettled (records : List Handoff) (r : Governance) : Type 0 where
    pub settled : AllSettle records r.handoffs
    pub terminal : All (λ h. h.status ≢ created) r.handoffs

  audit-IsSettled :
      (session_id : String) (g : WorkflowGraph) (states : States) (outputs : Outputs)
      (records : List Handoff)
      → Ensures
          (IsSettled records)
          (λ e. Unit)
          (reconcile_required_handoffs digest session_id g states outputs records)
  unfolding reconcile_required_handoffs audit_graph_edges audit_declared_controls
  audit-IsSettled session_id g states outputs records =
      Ensures-bind _ (IsSettled records) (λ e. Unit)
        (audit_edges digest session_id g.nodes outputs (required_edges states g.nodes) records) _
        (AllSettle-edges session_id g.nodes outputs (required_edges states g.nodes) records)
        (λ edges audited. record {
          settled = AllSettle-trans records _ _ audited (
              AllSettle-trans edges.2 _ _
                (AllSettle-controls outputs [] g.declared_control_handoffs edges.2)
                (AllSettle-finalize _));
          terminal = finalize-terminal _;
        })

  -- On an accepted graph a reconciliation returns and leaves no handoff pending: it keeps each terminal
  -- one as it was, and a pending one is blocked under a valid receipt, with the contract it had.
  pub reconcile-IsSettled :
      (max_nodes max_depth : ℕ) (session_id : String) (g : WorkflowGraph) (states : States)
      (outputs : Outputs) (records : List Handoff)
      → validate max_nodes max_depth g ≡ ok tt
      → Ensures
          (IsSettled records)
          (λ e. ⊥)
          (reconcile_required_handoffs digest session_id g states outputs records)
  reconcile-IsSettled max_nodes max_depth session_id g states outputs records accepted =
      Ensures-total (IsSettled records)
        (reconcile_required_handoffs digest session_id g states outputs records)
        (audit-IsSettled session_id g states outputs records)
        (reconcile-total digest max_nodes max_depth session_id g states outputs records accepted)
