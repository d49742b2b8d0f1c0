-- ===== src/Handoff/Audits.antt =====
-- What an audit of the edges says that finds no issue.
use world_class_seo_agent_sy.Prelude.{
  ◌≡◌, ◌∙◌, refl, true, false, String, Option, none, some, List, [], ◌∷◌, ◌++◌, Result, ok, err,
  ◌>>=◌, Ensures, Ensures-bind, find, subst, append-nil_left, append-nil_right, ◌==◌, eq_iff, All,
  arith,
}
use world_class_seo_agent_sy.State.{Handoff}
use world_class_seo_agent_sy.Graph.Nodes.{WorkflowNode}
use world_class_seo_agent_sy.Graph.Validate.{node_of}
use world_class_seo_agent_sy.Handoff.Receipts.{Digest, terminal_receipt_is_valid}
use world_class_seo_agent_sy.Handoff.Edges.{
  Issue, KeyError, Audit, Edge, Outputs, output_of, or_text, expected_handoff_id, sender_agent,
  terminal_has_wrong_consumer, misaddressed, audit_terminal, audit_required_edge, audit_edges,
}

module _ (digest : Digest) where
  -- An edge that the audit finds in order.
  pub record IsAudited (session_id : String) (nodes : List WorkflowNode) (outputs : Outputs)
      (records : List Handoff) (e : Edge) : Type 0 where
    pub h : Handoff
    pub agent : String
    pub found :
        find (λ r. r.handoff_id == expected_handoff_id session_id e.node.id e.index) records
        ≡ some h
    pub node_agent : sender_agent (node_of nodes e.dependency_id) e.dependency_id ≡ ok agent
    pub sender : h.from_agent ≡ or_text (output_of e.dependency_id outputs).agent agent
    pub recipient : h.to_agent ≡ e.node.agent
    pub source : h.source_node_id ≡ e.dependency_id
    pub target : h.target_node_id ≡ e.node.id
    pub consumer :
        terminal_has_wrong_consumer h e.node.id e.node.agent (output_of e.node.id outputs) ≡ false
    pub receipt : terminal_receipt_is_valid digest h ≡ true

  edge-IsAudited :
      (session_id : String) (nodes : List WorkflowNode) (outputs : Outputs) (records : List Handoff)
      (e : Edge) (agent : String) (match : Option Handoff)
      → find (λ r. r.handoff_id == expected_handoff_id session_id e.node.id e.index) records ≡ match
      → sender_agent (node_of nodes e.dependency_id) e.dependency_id ≡ ok agent
      → (audit_required_edge digest
          (expected_handoff_id session_id e.node.id e.index)
          e.dependency_id
          e.node.id
          e.node.agent
          (or_text (output_of e.dependency_id outputs).agent agent)
          (output_of e.node.id outputs)
          match
          records).0
        ≡ []
      → IsAudited session_id nodes outputs records e
        × ((audit_required_edge digest
              (expected_handoff_id session_id e.node.id e.index)
              e.dependency_id
              e.node.id
              e.node.agent
              (or_text (output_of e.dependency_id outputs).agent agent)
              (output_of e.node.id outputs)
              match
              records).1
            ≡ records)
  unfolding audit_required_edge audit_terminal
  edge-IsAudited session_id nodes outputs records e agent none f known clean = cc
  edge-IsAudited session_id nodes outputs records e agent (some h) f known clean =
      let addressed =
        append-nil_left
          (misaddressed digest (expected_handoff_id session_id e.node.id e.index) e.dependency_id
            e.node.id e.node.agent (or_text (output_of e.dependency_id outputs).agent agent) h)
          _ clean in
      let terminal =
        append-nil_right
          (misaddressed digest (expected_handoff_id session_id e.node.id e.index) e.dependency_id
            e.node.id e.node.agent (or_text (output_of e.dependency_id outputs).agent agent) h)
          _ clean in
      (
        record {
          h = h;
          agent = agent;
          found = f;
          node_agent = known;
          sender =
              (eq_iff h.from_agent (or_text (output_of e.dependency_id outputs).agent agent)).0
                (ground arith);
          recipient = (eq_iff h.to_agent e.node.agent).0 (ground arith);
          source = (eq_iff h.source_node_id e.dependency_id).0 (ground arith);
          target = (eq_iff h.target_node_id e.node.id).0 (ground arith);
          consumer = ground arith;
          receipt = ground arith;
        },
        ground arith,
      )

  -- What an audit of the edges says when it finds no issue.
  abbrev pub Audits :
      (session_id : String)
      → List WorkflowNode
      → Outputs
      → List Handoff
      → List Edge
      → Audit digest
      → Type 0
  Audits session_id nodes outputs records edges a =
      a.1 ≡ [] → All (IsAudited session_id nodes outputs records) edges × (a.2 ≡ records)

  abbrev audit_from : String → Outputs → List Handoff → Edge → String → List Issue × List Handoff
  audit_from session_id outputs records e agent =
      audit_required_edge digest (expected_handoff_id session_id e.node.id e.index) e.dependency_id
        e.node.id e.node.agent (or_text (output_of e.dependency_id outputs).agent agent)
        (output_of e.node.id outputs)
        (find (λ r. r.handoff_id == expected_handoff_id session_id e.node.id e.index) records)
        records

  pub edges-Audits :
      (session_id : String) (nodes : List WorkflowNode) (outputs : Outputs) (edges : List Edge)
      (records : List Handoff)
      → Ensures
          (Audits session_id nodes outputs records edges)
          (λ e. Unit)
          (audit_edges digest session_id nodes outputs edges records)
  unfolding audit_edges
  edges-Audits session_id nodes outputs [] records = λ clean. (tt, refl)
  edges-Audits session_id nodes outputs (e ∷ edges) records =
      by_sender (λ rs. edges-Audits session_id nodes outputs edges rs)
        (sender_agent (node_of nodes e.dependency_id) e.dependency_id) refl
    where
      by_sender :
          ((rs : List Handoff)
            → Ensures
                (Audits session_id nodes outputs rs edges)
                (λ x. Unit {0})
                (audit_edges digest session_id nodes outputs edges rs))
          → (sender : Result KeyError String)
          → sender_agent (node_of nodes e.dependency_id) e.dependency_id ≡ sender
          → Ensures
              (Audits session_id nodes outputs records (e ∷ edges))
              (λ e. Unit)
              (sender >>= λ agent.
                audit_edges digest session_id nodes outputs edges
                  (audit_from session_id outputs records e agent).1
                >>= λ later. ok (
                  expected_handoff_id session_id e.node.id e.index ∷ later.0,
                  (audit_from session_id outputs records e agent).0 ++ later.1,
                  later.2,
                ))
      by_sender audited (err x) known = tt
      by_sender audited (ok agent) known =
          Ensures-bind
            (Audits session_id nodes outputs (audit_from session_id outputs records e agent).1
              edges)
            (Audits session_id nodes outputs records (e ∷ edges)) (λ x. Unit)
            (audit_edges digest session_id nodes outputs edges
              (audit_from session_id outputs records e agent).1)
            _ (audited (audit_from session_id outputs records e agent).1)
            (λ later audits clean.
              let now =
                edge-IsAudited session_id nodes outputs records e agent
                  (find (λ r. r.handoff_id == expected_handoff_id session_id e.node.id e.index)
                    records)
                  refl known
                  (append-nil_left (audit_from session_id outputs records e agent).0 later.1
                    clean) in
              let further = audits (
                append-nil_right (audit_from session_id outputs records e agent).0 later.1 clean) in
              (
                (
                  now.0,
                  subst (λ rs. All (IsAudited session_id nodes outputs rs) edges) now.1 further.0,
                ),
                further.1 ∙ now.1,
              ))
