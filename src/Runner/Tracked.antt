-- ===== src/Runner/Tracked.antt =====
-- What every step of a schedule keeps: no node is lost, and as many run as the semaphore admits.
use world_class_seo_agent_sy.Prelude.{
  ◌≡◌, inl, inr, refl, ℕ, ◌≤◌, ◌<◌, Bool, true, false, not, ◌&&◌, ◌||◌, String, none, length,
  lookup, lookup-insert, insert, is_empty, Bool-cases, Ensures, Ensures-ok, Ensures-any,
  Ensures-bind, subst, ◌==◌, arith, some, Option,
}
use world_class_seo_agent_sy.Budget.Limits.{Float, ExecutionLimits}
use world_class_seo_agent_sy.Budget.Usage.{BudgetExceeded, RunBudget, reserve_node}
use world_class_seo_agent_sy.Graph.Nodes.{WorkflowNode}
use world_class_seo_agent_sy.Handoff.Edges.{NodeState, States}
use world_class_seo_agent_sy.Handoff.Receipts.{Digest}
use world_class_seo_agent_sy.Runner.Session.{Run}
use world_class_seo_agent_sy.Runner.Support.{is_none, block_node, node_result_state}
use world_class_seo_agent_sy.Runner.Nodes.{
  incomplete, dependency_outputs, after_reserve, start_node, finish_node,
}
use world_class_seo_agent_sy.Runner.Schedule.{
  Progress, Step, next_level, refuse, start, acquire, charge, finish, Steps, stay, step,
}
use world_class_seo_agent_sy.Runner.Charges.{IsKept, Step-IsKept}
use world_class_seo_agent_sy.Runner.Left.{is_left, has_state, contains-middle, length-middle}

has_state-insert :
    (node : WorkflowNode) (state : NodeState) (states : States) (k : String)
    → is_none (lookup k (insert node.id state states))
      ≡ (not (node.id == k) && is_none (lookup k states))
has_state-insert node state states k = ground (arith, lookup-insert node.id k state states)

module _ {F : Float} (digest : Digest) where
  abbrev states_after : Bool → WorkflowNode → Run F → States
  states_after true node r = r.states
  states_after false node r = insert node.id NodeState.blocked r.states

  after-states :
      (node : WorkflowNode) (outcome : Option BudgetExceeded × RunBudget F) (r : Run F)
      → Ensures
          (λ out. out.1.states ≡ states_after out.0 node r)
          (λ e. Unit {0})
          (after_reserve node outcome r)
  unfolding block_node
  after-states node (some refusal, budget) r = refl
  after-states node (none, budget) r =
      Ensures-bind (λ rest. Unit {0}) (λ out. out.1.states ≡ states_after out.0 node r)
        (λ e. Unit {0}) (dependency_outputs r.outputs node.depends_on) _ (Ensures-any _)
        (λ rest u. refl)

  start_node-states :
      (now : ℕ) (node : WorkflowNode) (r : Run F)
      → Ensures
          (λ out. out.1.states ≡ states_after out.0 node r)
          (λ e. Unit {0})
          (start_node now node r)
  unfolding start_node block_node
  start_node-states now node r =
      elim (Bool-cases (is_empty (incomplete r.states node.depends_on))) [
        | inl e ↦ rw e (after-states node (reserve_node now r.budget) r)
        | inr e ↦ rw e refl
      ]

  -- A node that is to be run is still to be run after a step, or it has a state.
  Step-tracked :
      (p q : Progress F) (k : String)
      → Step digest p q
      → (is_left p k || has_state p.run k) ≡ true
      → (is_left q k || has_state q.run k) ≡ true
  unfolding finish_node
  Step-tracked p q k (next_level clock level later r) h = ground (arith, h)
  Step-tracked p q k (refuse clock now before after queued executing later node r r' c e) h =
      let states =
        Ensures-ok (λ out. out.1.states ≡ states_after out.0 node r) (λ e. Unit {0})
          (start_node now node r) (false, r') e (start_node-states now node r) in
      rw states (
        ground (
          arith,
          h,
          contains-middle before after node k,
          has_state-insert node NodeState.blocked r.states k,
        ))
  Step-tracked p q k (start clock now before after queued executing later node r r' c e) h =
      let states =
        Ensures-ok (λ out. out.1.states ≡ states_after out.0 node r) (λ e. Unit {0})
          (start_node now node r) (true, r') e (start_node-states now node r) in
      rw states (ground (arith, h, contains-middle before after node k))
  Step-tracked p q k (acquire clock waiting before after executing later node r free) h =
      ground (arith, h, contains-middle before after node k)
  Step-tracked p q k (charge clock now waiting queued executing later r correction client c) h = h
  Step-tracked p q k (finish clock before after waiting queued later node r date output result) h =
      ground (
        arith,
        h,
        contains-middle before after node k,
        has_state-insert node (node_result_state result.status result.synthetic output) r.states k,
      )

  pub Steps-tracked :
      (p q : Progress F) (k : String)
      → Steps digest p q
      → (is_left p k || has_state p.run k) ≡ true
      → (is_left q k || has_state q.run k) ≡ true
  Steps-tracked p q k (stay same) h = h
  Steps-tracked p q k (step first m last one more) h =
      Steps-tracked m q k more (Step-tracked p m k one h)

  Step-executing :
      (limits : ExecutionLimits F) (p q : Progress F)
      → Step digest p q
      → p.run.budget.limits ≡ limits
      → length p.executing ≤ limits.parallel_agents
      → length q.executing ≤ limits.parallel_agents
  Step-executing limits p q (next_level clock level later r) same h = h
  Step-executing limits p q (refuse clock now before after queued executing later node r r' c e)
        same h =
      h
  Step-executing limits p q (start clock now before after queued executing later node r r' c e) same
        h =
      h
  Step-executing limits p q (acquire clock waiting before after executing later node r free) same
        h =
      subst (λ (l : ExecutionLimits F). length executing < l.parallel_agents) same free
  Step-executing limits p q (charge clock now waiting queued executing later r correction client c)
        same h =
      h
  Step-executing limits p q
        (finish clock before after waiting queued later node r date output result) same h =
      omega (arith, h, length-middle before after node)

  pub Steps-executing :
      (limits : ExecutionLimits F) (opened : ℕ) (p q : Progress F)
      → Steps digest p q
      → IsKept limits opened p.run.budget
      → length p.executing ≤ limits.parallel_agents
      → length q.executing ≤ limits.parallel_agents
  Steps-executing limits opened p q (stay same) k h = h
  Steps-executing limits opened p q (step first m last one more) k h =
      Steps-executing limits opened m q more (Step-IsKept limits opened digest p m one k)
        (Step-executing limits p m one k.same h)
