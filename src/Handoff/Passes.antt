-- ===== src/Handoff/Passes.antt =====
-- What a report that passes says of the required edges.
use world_class_seo_agent_sy.Prelude.{
  ◌≡◌, ◌∙◌, ◌≢◌, inl, inr, refl, Bool, true, String, some, List, [], ◌∷◌, ◌++◌, ok, Ensures,
  Ensures-total, ℕ, Ensures-bind, Ensures-both, and_left, and_right, find, subst, append-nil_left,
  append-nil_right, is_empty-nil, eq_iff, Bool-cases, All, All-map, arith,
}
use world_class_seo_agent_sy.State.{Handoff, HandoffStatus, consumed}
use world_class_seo_agent_sy.Graph.Nodes.{WorkflowNode, WorkflowGraph}
use world_class_seo_agent_sy.Graph.Validate.{validate}
use world_class_seo_agent_sy.Handoff.Totals.{reconcile-total}
use world_class_seo_agent_sy.Handoff.Receipts.{Digest}
use world_class_seo_agent_sy.Handoff.Acks.{is_text-some}
use world_class_seo_agent_sy.Handoff.Edges.{
  Edge, States, Outputs, output_of, or_text, terminal_has_wrong_consumer, required_edges,
  audit_edges, audit_graph_edges, index_handoffs,
}
use world_class_seo_agent_sy.Handoff.Controls.{audit_declared_controls}
use world_class_seo_agent_sy.Handoff.Reconcile.{
  Governance, is_accepted, terminal_semantic_invariant_issues, unresolved_of, finalize_pending,
  reconcile_required_handoffs,
}
use world_class_seo_agent_sy.Handoff.Settled.{
  AllSettle, AllSettle-finalize, AllSettle-edges, AllSettle-controls,
}
use world_class_seo_agent_sy.Handoff.Audits.{IsAudited, Audits, edges-Audits}

All-find {ℓ κ} :
    {A : Type ℓ} (P : A → Type κ) (p : A → Bool) (xs : List A) (a : A)
    → All P xs
    → find p xs ≡ some a
    → P a
All-find P p [] a h e = cc
All-find P p (x ∷ xs) a h e = elim (Bool-cases (p x)) [
  | inl t ↦ let same : x ≡ a = ground (arith, t) in subst P same h.0
  | inr f ↦ All-find P p xs a h.1 (ground (arith, f))
]

pub unresolved-consumed :
    (hs : List Handoff) → unresolved_of hs ≡ [] → All (λ h. h.status ≡ consumed) hs
unfolding unresolved_of
unresolved-consumed [] e = tt
unresolved-consumed (h ∷ hs) e = (ground arith, unresolved-consumed hs (ground arith))

semantic-evidence :
    (hs : List Handoff)
    → terminal_semantic_invariant_issues hs ≡ []
    → All (λ h. h.status ≡ consumed) hs
    → All (λ h. is_accepted h.resolution ≡ true → h.evidence_refs ≢ []) hs
unfolding terminal_semantic_invariant_issues
semantic-evidence [] e c = tt
semantic-evidence (h ∷ hs) e c =
    (λ a n. ground (arith, a, n, c.0), semantic-evidence hs (ground arith) c.1)

module _ (digest : Digest) where
  AllSettle-same :
      (xs ys : List Handoff) → AllSettle digest xs ys → All (λ h. h.status ≡ consumed) ys → ys ≡ xs
  AllSettle-same [] [] s c = refl
  AllSettle-same [] (y ∷ ys) s c = absurd s
  AllSettle-same (x ∷ xs) [] s c = absurd s
  AllSettle-same (x ∷ xs) (y ∷ ys) (inl e, s) c = cc (e, AllSettle-same xs ys s c.1)
  AllSettle-same (x ∷ xs) (y ∷ ys) (inr d, s) c = absurd (cc (d.status, c.0))

  -- A required edge, delivered: its handoff is consumed by the output of its node, from the sender.
  pub record IsDelivered (session_id : String) (nodes : List WorkflowNode) (outputs : Outputs)
      (records : List Handoff) (e : Edge) : Type 0 where
    pub audited : IsAudited digest session_id nodes outputs records e
    pub status : audited.h.status ≡ consumed
    pub output : audited.h.receiving_output_id ≡ or_text (output_of e.node.id outputs).output_id ""
    pub node : audited.h.receiving_node_id ≡ e.node.id
    pub agent : (output_of e.node.id outputs).agent ≡ some e.node.agent

  IsDelivered-IsAudited :
      (session_id : String) (nodes : List WorkflowNode) (outputs : Outputs) (records : List Handoff)
      (e : Edge)
      → All (λ h. h.status ≡ consumed) records
      → IsAudited digest session_id nodes outputs records e
      → IsDelivered session_id nodes outputs records e
  unfolding terminal_has_wrong_consumer
  IsDelivered-IsAudited session_id nodes outputs records e c a =
      let done : a.h.status ≡ consumed =
        All-find (λ h. h.status ≡ consumed) _ records a.h c a.found in
      let right = a.consumer in
      record {
        audited = a;
        status = done;
        output =
            (eq_iff a.h.receiving_output_id (or_text (output_of e.node.id outputs).output_id "")).0
              (ground (arith, done, right));
        node = (eq_iff a.h.receiving_node_id e.node.id).0 (ground (arith, done, right));
        agent =
            is_text-some (output_of e.node.id outputs).agent e.node.agent
              (ground (arith, done, right));
      }

  -- What a report that passes says.
  pub record IsPassed (session_id : String) (g : WorkflowGraph) (states : States)
      (outputs : Outputs) (records : List Handoff) (r : Governance) : Type 0 where
    pub unchanged : r.handoffs ≡ records
    pub consumed : All (λ h. h.status ≡ HandoffStatus.consumed) records
    pub evidence : All (λ h. is_accepted h.resolution ≡ true → h.evidence_refs ≢ []) records
    pub delivered :
        All (IsDelivered session_id g.nodes outputs records) (required_edges states g.nodes)

  audit-IsPassed :
      (session_id : String) (g : WorkflowGraph) (states : States) (outputs : Outputs)
      (records : List Handoff)
      → Ensures
          (λ r. r.passes ≡ true → IsPassed session_id g states outputs records r)
          (λ e. Unit)
          (reconcile_required_handoffs digest session_id g states outputs records)
  unfolding reconcile_required_handoffs audit_graph_edges
  audit-IsPassed session_id g states outputs records =
      let audit =
        audit_edges digest session_id g.nodes outputs (required_edges states g.nodes) records in
      Ensures-bind
        (λ a.
          AllSettle digest records a.2
          × Audits digest session_id g.nodes outputs records (required_edges states g.nodes) a)
        (λ r. r.passes ≡ true → IsPassed session_id g states outputs records r) (λ e. Unit) audit _
        (Ensures-both _ _ audit
          (AllSettle-edges digest session_id g.nodes outputs (required_edges states g.nodes)
            records)
          (edges-Audits digest session_id g.nodes outputs (required_edges states g.nodes) records))
        (λ edges (settled, audits) passes.
          let controls =
            audit_declared_controls digest g.declared_control_handoffs outputs edges.2 in
          let final = finalize_pending digest controls.2 in
          let clean = is_empty-nil _ (and_left _ _ passes) in
          let done = unresolved-consumed final.1 (is_empty-nil _ (and_right _ _ passes)) in
          let indexed = index_handoffs records session_id in
          let semantics = terminal_semantic_invariant_issues controls.2 in
          let clean_semantics =
            append-nil_left (indexed ++ edges.1 ++ controls.1 ++ semantics) _
              (append-nil_left _ final.0 clean) in
          let clean_edges =
            append-nil_left (indexed ++ edges.1) controls.1
              (append-nil_left (indexed ++ edges.1 ++ controls.1) semantics clean_semantics) in
          let by_final =
            AllSettle-same controls.2 final.1 (AllSettle-finalize digest controls.2) done in
          let by_controls =
            AllSettle-same edges.2 controls.2
              (unfold audit_declared_controls in
                AllSettle-controls digest outputs [] g.declared_control_handoffs edges.2)
              (subst (All (λ h. h.status ≡ HandoffStatus.consumed)) by_final done) in
          let (audited, by_edges) = audits (append-nil_right indexed edges.1 clean_edges) in
          let consumed =
            subst (All (λ h. h.status ≡ HandoffStatus.consumed)) (by_final ∙ by_controls ∙ by_edges)
              done in
          record {
            unchanged = by_final ∙ by_controls ∙ by_edges;
            consumed = consumed;
            evidence =
                semantic-evidence records
                  (subst (λ rs. terminal_semantic_invariant_issues rs ≡ []) (by_controls ∙ by_edges)
                    (append-nil_right (indexed ++ edges.1 ++ controls.1) semantics clean_semantics))
                  consumed;
            delivered =
                All-map
                  (λ e a. IsDelivered-IsAudited session_id g.nodes outputs records e consumed a)
                  (required_edges states g.nodes) audited;
          })

  -- On an accepted graph a reconciliation returns, and its report passes only if every handoff is
  -- consumed, and was before the reconciliation, each accepted one carries evidence, and for every
  -- required edge of the graph the handoff with its id goes from the agent of the dependency to the
  -- node, was consumed by the output of that node, and has a valid receipt.
  pub reconcile-IsPassed :
      (max_nodes max_depth : ℕ) (session_id : String) (g : WorkflowGraph) (states : States)
      (outputs : Outputs) (records : List Handoff)
      → validate max_nodes max_depth g ≡ ok tt
      → Ensures
          (λ r. r.passes ≡ true → IsPassed session_id g states outputs records r)
          (λ e. ⊥)
          (reconcile_required_handoffs digest session_id g states outputs records)
  reconcile-IsPassed max_nodes max_depth session_id g states outputs records accepted =
      Ensures-total (λ r. r.passes ≡ true → IsPassed session_id g states outputs records r)
        (reconcile_required_handoffs digest session_id g states outputs records)
        (audit-IsPassed session_id g states outputs records)
        (reconcile-total digest max_nodes max_depth session_id g states outputs records accepted)
