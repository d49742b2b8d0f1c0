-- ===== src/Runner/Status.antt =====
-- When the status of a run is COMPLETE.
use world_class_seo_agent_sy.Prelude.{
  ◌≡◌, ◌∙◌, sym, ◌↔◌, refl, inl, inr, Bool, true, false, String, Option, some, List, [], ◌∷◌,
  is_empty, is_empty-nil, lookup, ◌==◌, Ensures, Ensures-total, ℕ, ok, Ensures-bind, Ensures-any,
  All, All-map, Bool-cases, arith,
}
use world_class_seo_agent_sy.Budget.Limits.{Float}
use world_class_seo_agent_sy.State.{Handoff, HandoffStatus}
use world_class_seo_agent_sy.Graph.Nodes.{WorkflowNode, WorkflowGraph}
use world_class_seo_agent_sy.Graph.Validate.{validate}
use world_class_seo_agent_sy.Handoff.Totals.{reconcile-total}
use world_class_seo_agent_sy.Handoff.Outputs.{AgentOutput}
use world_class_seo_agent_sy.Handoff.Receipts.{Digest}
use world_class_seo_agent_sy.Handoff.Edges.{
  NodeState, States, Outputs, is_completed, audit_graph_edges,
}
use world_class_seo_agent_sy.Handoff.Reconcile.{reconcile_required_handoffs, unresolved_of}
use world_class_seo_agent_sy.Handoff.Passes.{unresolved-consumed}
use world_class_seo_agent_sy.Runner.Session.{Run, ToolResult}
use world_class_seo_agent_sy.Runner.Support.{
  final_output, WorkflowStatus, is_none, required_failed, optional_failed, workflow_status,
}
use world_class_seo_agent_sy.Runner.Finalize.{is_synthetic, has_synthetic, finalize_run}

none_failed :
    (nodes : List WorkflowNode) (states : States)
    → required_failed nodes states ≡ false
    → optional_failed nodes states ≡ false
    → All (λ n. is_completed (lookup n.id states) ≡ true) nodes
unfolding required_failed optional_failed
none_failed [] states h k = tt
none_failed (n ∷ ns) states h k =
    (ground arith, none_failed ns states (ground arith) (ground arith))

required_failed-completed :
    (nodes : List WorkflowNode) (states : States)
    → All (λ n. is_completed (lookup n.id states) ≡ true) nodes
    → required_failed nodes states ≡ false
unfolding required_failed
required_failed-completed [] states c = refl
required_failed-completed (n ∷ ns) states c =
    ground (arith, c.0, required_failed-completed ns states c.1)

optional_failed-completed :
    (nodes : List WorkflowNode) (states : States)
    → All (λ n. is_completed (lookup n.id states) ≡ true) nodes
    → optional_failed nodes states ≡ false
unfolding optional_failed
optional_failed-completed [] states c = refl
optional_failed-completed (n ∷ ns) states c =
    ground (arith, c.0, optional_failed-completed ns states c.1)

module _ {ℓ κ} {C : Type ℓ} {U : Type κ} where
  -- What COMPLETE asks for.
  pub record IsComplete (g : WorkflowGraph) (states : States) (output : Option AgentOutput)
      (tool_failures : List ToolResult) (conflicts : List C) (synthetic : Bool)
      (unresolved : List U) : Type 0 where
    pub nodes : All (λ n. is_completed (lookup n.id states) ≡ true) g.nodes
    pub delivered : is_none output ≡ false
    pub tools : is_empty tool_failures ≡ true
    pub agreed : is_empty conflicts ≡ true
    pub genuine : synthetic ≡ false
    pub resolved : is_empty unresolved ≡ true
    pub full : is_empty g.capacity_exclusions ≡ true

  -- The status is COMPLETE exactly when every node, required or not, is completed, the deliverable
  -- has an output, and there is no failure of a required tool, no conflict, nothing synthetic, no
  -- unresolved handoff and no agent left out for capacity.
  pub workflow_status_iff :
      (g : WorkflowGraph) (states : States) (output : Option AgentOutput)
      (tool_failures : List ToolResult) (conflicts : List C) (synthetic : Bool)
      (unresolved : List U)
      → (workflow_status g states output tool_failures conflicts synthetic unresolved
          ≡ WorkflowStatus.complete)
        ↔ IsComplete g states output tool_failures conflicts synthetic unresolved
  unfolding workflow_status
  workflow_status_iff g states output tool_failures conflicts synthetic unresolved = (
    λ e. record {
      nodes = none_failed g.nodes states (ground arith) (ground arith);
      delivered = ground arith;
      tools = ground arith;
      agreed = ground arith;
      genuine = ground arith;
      resolved = ground arith;
      full = ground arith;
    },
    λ c.
        let req = required_failed-completed g.nodes states c.nodes in
        let opt = optional_failed-completed g.nodes states c.nodes in
        let d = c.delivered in
        let t = c.tools in
        let a = c.agreed in
        let s = c.genuine in
        let u = c.resolved in let f = c.full in ground (arith, req, opt, d, t, a, s, u, f),
  )

lookup-genuine :
    (node_id : String) (states : States)
    → has_synthetic states ≡ false
    → is_completed (lookup node_id states) ≡ true
    → lookup node_id states ≡ some NodeState.complete
lookup-genuine node_id [] h c = cc
lookup-genuine node_id ((key, state) ∷ states) h c = elim (Bool-cases (key == node_id)) [
  | inl e ↦ rw e (genuine state (ground arith) (ground (arith, e)))
  | inr e ↦ rw e (lookup-genuine node_id states (ground arith) (ground (arith, e)))
]
  where
    genuine :
        (state : NodeState)
        → is_synthetic state ≡ false
        → is_completed (some state) ≡ true
        → some state ≡ some NodeState.complete
    genuine NodeState.complete h c = refl
    genuine NodeState.synthetic h c = cc
    genuine NodeState.partial h c = cc
    genuine NodeState.blocked h c = cc
    genuine NodeState.failed h c = cc

reconcile-unresolved :
    (digest : Digest) (session_id : String) (g : WorkflowGraph) (states : States)
    (outputs : Outputs) (records : List Handoff)
    → Ensures
        (λ governance. governance.unresolved ≡ unresolved_of governance.handoffs)
        (λ e. Unit {0})
        (reconcile_required_handoffs digest session_id g states outputs records)
unfolding reconcile_required_handoffs
reconcile-unresolved digest session_id g states outputs records =
    Ensures-bind (λ a. Unit {0})
      (λ governance. governance.unresolved ≡ unresolved_of governance.handoffs) (λ e. Unit {0})
      (audit_graph_edges digest session_id g states outputs records) _ (Ensures-any _) (λ a u. refl)

module _ {F : Float} {Conflict : Type 0} (digest : Digest) where
  -- What a run that ends as COMPLETE looks like.
  pub record IsFinished (g : WorkflowGraph) (tool_failures : List ToolResult)
      (conflicts : List Conflict) (r r' : Run F) : Type 0 where
    pub nodes : All (λ n. lookup n.id r.states ≡ some NodeState.complete) g.nodes
    pub delivered : is_none (final_output g r.outputs r.states) ≡ false
    pub handoffs : All (λ h. h.status ≡ HandoffStatus.consumed) r'.handoffs
    pub agreed : conflicts ≡ []
    pub tools : tool_failures ≡ []
    pub full : g.capacity_exclusions ≡ []

  pub end-IsFinished :
      (g : WorkflowGraph) (tool_failures : List ToolResult) (conflicts : List Conflict) (r : Run F)
      → Ensures
          (λ end. end.1 ≡ WorkflowStatus.complete → IsFinished g tool_failures conflicts r end.2)
          (λ e. Unit)
          (finalize_run digest g tool_failures conflicts r)
  unfolding finalize_run
  end-IsFinished g tool_failures conflicts r =
      let reconciled =
        reconcile_required_handoffs digest r.session_id g r.states r.outputs r.handoffs in
      Ensures-bind (λ governance. governance.unresolved ≡ unresolved_of governance.handoffs) _
        (λ e. Unit) reconciled _
        (reconcile-unresolved digest r.session_id g r.states r.outputs r.handoffs)
        (λ governance same done.
          let c =
            (workflow_status_iff g r.states (final_output g r.outputs r.states) tool_failures
                conflicts (has_synthetic r.states) governance.unresolved).0
              done in
          record {
            nodes = All-map (λ n e. lookup-genuine n.id r.states c.genuine e) g.nodes c.nodes;
            delivered = c.delivered;
            handoffs =
                unresolved-consumed governance.handoffs
                  (sym same ∙ is_empty-nil governance.unresolved c.resolved);
            agreed = is_empty-nil conflicts c.agreed;
            tools = is_empty-nil tool_failures c.tools;
            full = is_empty-nil g.capacity_exclusions c.full;
          })

  -- The end of a run on an accepted graph returns, with the status COMPLETE only if every node of
  -- the graph has the state COMPLETE itself, the deliverable has an output, specialists are not in
  -- conflict, no required tool failed, no agent was left out for capacity, and every handoff of the
  -- session is consumed.
  pub finalize_run-IsFinished :
      (max_nodes max_depth : ℕ) (g : WorkflowGraph) (tool_failures : List ToolResult)
      (conflicts : List Conflict) (r : Run F)
      → validate max_nodes max_depth g ≡ ok tt
      → Ensures
          (λ end. end.1 ≡ WorkflowStatus.complete → IsFinished g tool_failures conflicts r end.2)
          (λ e. ⊥)
          (finalize_run digest g tool_failures conflicts r)
  unfolding finalize_run
  finalize_run-IsFinished max_nodes max_depth g tool_failures conflicts r accepted =
      Ensures-total
        (λ end. end.1 ≡ WorkflowStatus.complete → IsFinished g tool_failures conflicts r end.2)
        (finalize_run digest g tool_failures conflicts r)
        (end-IsFinished g tool_failures conflicts r)
        (Ensures-bind (λ governance. Unit {0}) (λ end. Unit {0}) (λ e. ⊥)
          (reconcile_required_handoffs digest r.session_id g r.states r.outputs r.handoffs) _
          (reconcile-total digest max_nodes max_depth r.session_id g r.states r.outputs r.handoffs
            accepted)
          (λ governance u. tt))
