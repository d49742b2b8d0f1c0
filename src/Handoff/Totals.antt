-- ===== src/Handoff/Totals.antt =====
-- On a graph that is accepted, a reconciliation returns.
use world_class_seo_agent_sy.Prelude.{
  ◌≡◌, ◌==◌, inl, inr, ℕ, suc, true, String, List, [], ◌∷◌, contains, subset, ok, Ensures,
  Ensures-bind, Bool-cases, All, All-append, lookup, arith,
}
use world_class_seo_agent_sy.State.{Handoff}
use world_class_seo_agent_sy.Graph.Nodes.{WorkflowNode, WorkflowGraph, ids}
use world_class_seo_agent_sy.Graph.Validate.{node_of, validate}
use world_class_seo_agent_sy.Graph.Ranks.{IsClosed}
use world_class_seo_agent_sy.Graph.Complete.{validate_iff}
use world_class_seo_agent_sy.Handoff.Receipts.{Digest}
use world_class_seo_agent_sy.Handoff.Edges.{
  Edge, States, Outputs, is_completed, edges_of, required_edges, sender_agent, audit_edges,
  audit_graph_edges,
}
use world_class_seo_agent_sy.Handoff.Reconcile.{reconcile_required_handoffs}

abbrev IsKnown : List WorkflowNode → Edge → Type 0
IsKnown nodes e = contains (ids nodes) e.dependency_id ≡ true

edges_of-IsKnown :
    (nodes : List WorkflowNode) (states : States) (node : WorkflowNode) (index : ℕ)
    (deps : List String)
    → subset deps (ids nodes) ≡ true
    → All (IsKnown nodes) (edges_of states node index deps)
edges_of-IsKnown nodes states node index [] h = tt
edges_of-IsKnown nodes states node index (dep ∷ deps) h =
    let rest = edges_of-IsKnown nodes states node (suc index) deps (ground arith) in
    elim (Bool-cases (is_completed (lookup dep states))) [
      | inl c ↦ rw c (ground arith, rest)
      | inr c ↦ rw c rest
    ]

required_edges-IsKnown :
    (nodes : List WorkflowNode) (states : States) (ns : List WorkflowNode)
    → IsClosed ns (ids nodes)
    → All (IsKnown nodes) (required_edges states ns)
unfolding required_edges
required_edges-IsKnown nodes states [] h = tt
required_edges-IsKnown nodes states (n ∷ ns) h =
    let rest = required_edges-IsKnown nodes states ns h.1 in
    elim (Bool-cases (is_completed (lookup n.id states))) [
      | inl c ↦
          rw c (
            All-append (IsKnown nodes) _ _ (edges_of-IsKnown nodes states n 1 n.depends_on h.0)
              rest)
      | inr c ↦ rw c rest
    ]

sender_agent-total :
    (nodes : List WorkflowNode) (dep : String)
    → contains (ids nodes) dep ≡ true
    → Ensures (λ agent. Unit {0}) (λ e. ⊥) (sender_agent (node_of nodes dep) dep)
sender_agent-total [] dep h = absurd (cc h)
sender_agent-total (n ∷ ns) dep h = elim (Bool-cases (n.id == dep)) [
  | inl e ↦ rw e tt
  | inr e ↦ rw e (sender_agent-total ns dep (ground (arith, e)))
]

module _ (digest : Digest) where
  audit_edges-total :
      (session_id : String) (nodes : List WorkflowNode) (outputs : Outputs) (edges : List Edge)
      (records : List Handoff)
      → All (IsKnown nodes) edges
      → Ensures (λ a. Unit {0}) (λ e. ⊥) (audit_edges digest session_id nodes outputs edges records)
  unfolding audit_edges
  audit_edges-total session_id nodes outputs [] records h = tt
  audit_edges-total session_id nodes outputs (e ∷ edges) records h =
      Ensures-bind (λ agent. Unit {0}) (λ a. Unit {0}) (λ x. ⊥)
        (sender_agent (node_of nodes e.dependency_id) e.dependency_id) _
        (sender_agent-total nodes e.dependency_id h.0)
        (λ agent u.
          Ensures-bind (λ a. Unit {0}) (λ a. Unit {0}) (λ x. ⊥)
            (audit_edges digest session_id nodes outputs edges _) _
            (audit_edges-total session_id nodes outputs edges _ h.1) (λ later v. tt))

  pub reconcile-total :
      (max_nodes max_depth : ℕ) (session_id : String) (g : WorkflowGraph) (states : States)
      (outputs : Outputs) (records : List Handoff)
      → validate max_nodes max_depth g ≡ ok tt
      → Ensures
          (λ r. Unit {0})
          (λ e. ⊥)
          (reconcile_required_handoffs digest session_id g states outputs records)
  unfolding reconcile_required_handoffs audit_graph_edges
  reconcile-total max_nodes max_depth session_id g states outputs records accepted =
      Ensures-bind (λ a. Unit {0}) (λ r. Unit {0}) (λ x. ⊥)
        (audit_edges digest session_id g.nodes outputs (required_edges states g.nodes) records) _
        (audit_edges-total session_id g.nodes outputs (required_edges states g.nodes) records (
          required_edges-IsKnown g.nodes states g.nodes
            ((validate_iff max_nodes max_depth g).0 accepted).closed))
        (λ a u. tt)
