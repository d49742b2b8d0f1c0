-- ===== src/Runner/Outputs.antt =====
-- What every schedule of a run keeps, and what starting a node does.
use world_class_seo_agent_sy.Prelude.{
  ◌≡◌, ◌⊎◌, sym, ap, eq_refl, refl, inl, inr, ℕ, Bool, true, false, String, Option, none, some,
  List, [], ◌∷◌, is_empty, lookup, lookup-insert, ◌==◌, Ensures, Ensures-bind, Ensures-ok,
  Ensures-left, All, All-map, Bool-cases, Option-cases, arith,
}
use world_class_seo_agent_sy.Budget.Limits.{Float}
use world_class_seo_agent_sy.Budget.Usage.{BudgetExceeded, RunBudget, reserve_node}
use world_class_seo_agent_sy.Graph.Nodes.{WorkflowNode}
use world_class_seo_agent_sy.Handoff.Outputs.{AgentOutput}
use world_class_seo_agent_sy.Handoff.Receipts.{Digest}
use world_class_seo_agent_sy.Handoff.Edges.{NodeState, States, Outputs, is_completed}
use world_class_seo_agent_sy.Runner.Session.{Run, Detail, AgentResult}
use world_class_seo_agent_sy.Runner.Support.{is_none, block_node, node_result_state}
use world_class_seo_agent_sy.Runner.Nodes.{
  dependency_outputs, incomplete, after_reserve, start_node, finish_node,
}
use world_class_seo_agent_sy.Runner.Schedule.{
  Progress, Step, next_level, refuse, start, acquire, charge, finish, Steps, stay, step,
}

incomplete-All :
    (states : States) (deps : List String)
    → is_empty (incomplete states deps) ≡ true
    → All (λ dep. is_completed (lookup dep states) ≡ true) deps
incomplete-All states [] h = tt
incomplete-All states (dep ∷ deps) h = (ground arith, incomplete-All states deps (ground arith))

dependency_outputs-total :
    (outputs : Outputs) (deps : List String)
    → All (λ dep. is_none (lookup dep outputs) ≡ false) deps
    → Ensures (λ rest. Unit {0}) (λ e. ⊥) (dependency_outputs outputs deps)
unfolding dependency_outputs
dependency_outputs-total outputs [] h = tt
dependency_outputs-total outputs (dep ∷ deps) (h, hs) = elim (Option-cases (lookup dep outputs)) [
  | inl e ↦ absurd (ground (arith, e, h))
  | inr (output, e) ↦ rw e (
      Ensures-bind (λ rest. Unit {0}) (λ rest. Unit {0}) (λ e. ⊥) (dependency_outputs outputs deps)
        _ (dependency_outputs-total outputs deps hs) (λ rest u. tt))
]

module _ {F : Float} where
  -- Every completed node has an output.
  abbrev pub HasOutputs : Run F → Type 0
  HasOutputs r =
      (node_id : String)
      → is_completed (lookup node_id r.states) ≡ true
      → is_none (lookup node_id r.outputs) ≡ false

  block-HasOutputs :
      (node : WorkflowNode) (detail : Detail) (r : Run F)
      → HasOutputs r
      → HasOutputs (block_node node detail r)
  unfolding block_node
  block-HasOutputs node detail r h node_id c =
      h node_id (ground (arith, c, lookup-insert node.id node_id NodeState.blocked r.states))

  finish-HasOutputs :
      (digest : Digest) (now : String) (node : WorkflowNode) (output : AgentOutput)
      (result : AgentResult) (r : Run F)
      → HasOutputs r
      → HasOutputs (finish_node digest now node output result r)
  unfolding finish_node
  finish-HasOutputs digest now node output result r h node_id c =
      let state = node_result_state result.status result.synthetic output in
      elim (Bool-cases (node.id == node_id)) [
        | inl e ↦ rw (lookup-insert, e) refl
        | inr e ↦
            rw (lookup-insert, e)
              (h node_id (ground (arith, c, e, lookup-insert node.id node_id state r.states)))
      ]

  -- What starting a node does: it goes on to the executor with all dependencies completed and one node
  -- charged, or it is blocked, and no handoff is made.
  abbrev pub Starts : ℕ → WorkflowNode → Run F → Bool × Run F → Type 0
  Starts now node r out =
      ((out.0 ≡ true)
        × All (λ dep. is_completed (lookup dep r.states) ≡ true) node.depends_on
        × ((reserve_node now r.budget).0 ≡ none)
        × (out.1.budget ≡ (reserve_node now r.budget).1)
        × (out.1.states ≡ r.states))
      ⊎ ((out.0 ≡ false)
          × (lookup node.id out.1.states ≡ some NodeState.blocked)
          × (out.1.handoffs ≡ r.handoffs))

  block-blocked :
      (node : WorkflowNode) (detail : Detail) (r : Run F)
      → lookup node.id (block_node node detail r).states ≡ some NodeState.blocked
  unfolding block_node
  block-blocked node detail r =
      ground (arith, lookup-insert node.id node.id NodeState.blocked r.states, eq_refl node.id)

  after-Starts :
      (now : ℕ) (node : WorkflowNode) (r : Run F) (outcome : Option BudgetExceeded × RunBudget F)
      → reserve_node now r.budget ≡ outcome
      → HasOutputs r
      → All (λ dep. is_completed (lookup dep r.states) ≡ true) node.depends_on
      → Ensures
          (λ out. Starts now node r out × HasOutputs out.1)
          (λ e. ⊥)
          (after_reserve node outcome r)
  after-Starts now node r (some refusal, budget) e h c =
      (inr (refl, block-blocked node _ _, unfold block_node in refl), block-HasOutputs node _ _ h)
  after-Starts now node r (none, budget) e h c =
      Ensures-bind (λ rest. Unit {0}) (λ out. Starts now node r out × HasOutputs out.1) (λ e. ⊥)
        (dependency_outputs r.outputs node.depends_on) _
        (dependency_outputs-total r.outputs node.depends_on
          (All-map (λ dep k. h dep k) node.depends_on c))
        (λ rest u. (inl (refl, c, ap (λ o. o.0) e, sym (ap (λ o. o.1) e), refl), h))

  pub start-Starts :
      (now : ℕ) (node : WorkflowNode) (r : Run F)
      → HasOutputs r
      → Ensures (λ out. Starts now node r out × HasOutputs out.1) (λ e. ⊥) (start_node now node r)
  unfolding start_node
  start-Starts now node r h = elim (Bool-cases (is_empty (incomplete r.states node.depends_on))) [
    | inl e ↦ rw e (
        after-Starts now node r (reserve_node now r.budget) refl h
          (incomplete-All r.states node.depends_on e))
    | inr e ↦
        rw e (
          inr (refl, block-blocked node _ _, unfold block_node in refl),
          block-HasOutputs node _ _ h,
        )
  ]

  pub Step-HasOutputs :
      (digest : Digest) (p q : Progress F) → Step digest p q → HasOutputs p.run → HasOutputs q.run
  Step-HasOutputs digest p q (next_level clock level later r) h = h
  Step-HasOutputs digest p q
        (refuse clock now before after queued executing later node r r' after_clock e) h =
      (Ensures-ok _ _ (start_node now node r) (false, r') e (start-Starts now node r h)).1
  Step-HasOutputs digest p q
        (start clock now before after queued executing later node r r' after_clock e) h =
      (Ensures-ok _ _ (start_node now node r) (true, r') e (start-Starts now node r h)).1
  Step-HasOutputs digest p q (acquire clock waiting before after executing later node r free) h = h
  Step-HasOutputs digest p q
        (charge clock now waiting queued executing later r correction estimator after_clock) h =
      h
  Step-HasOutputs digest p q
        (finish clock before after waiting queued later node r date output result) h =
      finish-HasOutputs digest date node output result r h

  pub Steps-HasOutputs :
      (digest : Digest) (p q : Progress F) → Steps digest p q → HasOutputs p.run → HasOutputs q.run
  Steps-HasOutputs digest p q (stay same) h = h
  Steps-HasOutputs digest p q (step first m last s ss) h =
      Steps-HasOutputs digest m q ss (Step-HasOutputs digest p m s h)

  -- However the nodes of a run that begins with no state interleave, starting a node does not fail: the
  -- node goes on to the executor, charged once, with all its dependencies completed, or it is blocked
  -- and makes no handoff.
  pub start_node-Starts :
      (digest : Digest) (p q : Progress F) (now : ℕ) (node : WorkflowNode)
      → p.run.states ≡ []
      → Steps digest p q
      → Ensures (Starts now node q.run) (λ e. ⊥) (start_node now node q.run)
  start_node-Starts digest p q now node e steps =
      Ensures-left (Starts now node q.run) (λ out. HasOutputs out.1) (λ e. ⊥)
        (start_node now node q.run)
        (start-Starts now node q.run
          (Steps-HasOutputs digest p q steps (λ node_id c. absurd (ground (arith, e, c)))))
