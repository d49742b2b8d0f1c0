-- ===== src/Runner/Charges.antt =====
-- The budget of a run, however its nodes interleave.
use world_class_seo_agent_sy.Prelude.{
  ◌≡◌, ◌∙◌, ap, refl, inl, inr, ℕ, true, false, Option, none, some, is_empty, ok, Ensures,
  Ensures-bind, Ensures-any, Ensures-ok, Bool-cases,
}
use world_class_seo_agent_sy.Budget.Limits.{Float, RawLimits, ExecutionLimits, post_init}
use world_class_seo_agent_sy.Budget.Usage.{BudgetExceeded, RunBudget, open_budget, reserve_node}
use world_class_seo_agent_sy.Budget.Runs.{
  Call, reserve, IsWithin, reserve-IsWithin, open_budget-IsWithin, Settles, reserve-Settles,
}
use world_class_seo_agent_sy.Graph.Nodes.{WorkflowNode}
use world_class_seo_agent_sy.Handoff.Receipts.{Digest}
use world_class_seo_agent_sy.Runner.Session.{Run}
use world_class_seo_agent_sy.Runner.Support.{block_node}
use world_class_seo_agent_sy.Runner.Nodes.{
  dependency_outputs, incomplete, after_reserve, start_node, finish_node,
}
use world_class_seo_agent_sy.Runner.Schedule.{
  Progress, Step, next_level, refuse, start, acquire, charge, finish, Steps, stay, step,
}

module _ {F : Float} where
  -- A budget within the limits that a run began with, and with its start.
  pub record IsKept (limits : ExecutionLimits F) (opened : ℕ) (b : RunBudget F) : Type 0 where
    pub within : IsWithin b
    pub same : b.limits ≡ limits
    pub since : b.started ≡ opened

  reserve-limits :
      (c : Call F) (b : RunBudget F)
      → ((reserve c b).1.limits ≡ b.limits) × ((reserve c b).1.started ≡ b.started)
  reserve-limits c b = settled (reserve c b) (reserve-Settles c b)
    where
      settled :
          (out : Option BudgetExceeded × RunBudget F)
          → Settles c b out
          → (out.1.limits ≡ b.limits) × (out.1.started ≡ b.started)
      settled (some e, b') h = (ap (λ x. x.limits) h, ap (λ x. x.started) h)
      settled (none, b') h = (h.limits, h.started)

  reserve-IsKept :
      (limits : ExecutionLimits F) (opened : ℕ) (c : Call F) (b : RunBudget F)
      → IsKept limits opened b
      → IsKept limits opened (reserve c b).1
  reserve-IsKept limits opened c b k =
      let same = reserve-limits c b in
      record {
        within = reserve-IsWithin c b k.within;
        same = same.0 ∙ k.same;
        since = same.1 ∙ k.since;
      }

  after-IsKept :
      (limits : ExecutionLimits F) (opened now : ℕ) (n : WorkflowNode)
      (outcome : Option BudgetExceeded × RunBudget F) (r : Run F)
      → IsKept limits opened outcome.1
      → Ensures
          (λ out. IsKept limits opened out.1.budget)
          (λ e. Unit {0})
          (after_reserve n outcome r)
  unfolding block_node
  after-IsKept limits opened now n (some refusal, budget) r k = k
  after-IsKept limits opened now n (none, budget) r k =
      Ensures-bind (λ rest. Unit {0}) (λ out. IsKept limits opened out.1.budget) (λ e. Unit {0})
        (dependency_outputs r.outputs n.depends_on) _ (Ensures-any _) (λ rest u. k)

  start-IsKept :
      (limits : ExecutionLimits F) (opened now : ℕ) (n : WorkflowNode) (r : Run F)
      → IsKept limits opened r.budget
      → Ensures (λ out. IsKept limits opened out.1.budget) (λ e. Unit {0}) (start_node now n r)
  unfolding start_node block_node reserve
  start-IsKept limits opened now n r k =
      elim (Bool-cases (is_empty (incomplete r.states n.depends_on))) [
        | inl e ↦ rw e (after-IsKept limits opened now n (reserve_node now r.budget) r charged)
        | inr e ↦ rw e k
      ]
    where
      charged : IsKept limits opened (reserve_node now r.budget).1
      charged = reserve-IsKept limits opened (Call.node now) r.budget k

  pub Step-IsKept :
      (limits : ExecutionLimits F) (opened : ℕ) (digest : Digest) (p q : Progress F)
      → Step digest p q
      → IsKept limits opened p.run.budget
      → IsKept limits opened q.run.budget
  unfolding finish_node reserve
  Step-IsKept limits opened digest p q (next_level clock level later r) k = k
  Step-IsKept limits opened digest p q
        (refuse clock now before after queued executing later n r r' after_clock e) k =
      Ensures-ok _ _ (start_node now n r) (false, r') e (start-IsKept limits opened now n r k)
  Step-IsKept limits opened digest p q
        (start clock now before after queued executing later n r r' after_clock e) k =
      Ensures-ok _ _ (start_node now n r) (true, r') e (start-IsKept limits opened now n r k)
  Step-IsKept limits opened digest p q (acquire clock waiting before after executing later n r free)
        k =
      k
  Step-IsKept limits opened digest p q
        (charge clock now waiting queued executing later r correction client after_clock) k =
      reserve-IsKept limits opened (Call.model now correction client) r.budget k
  Step-IsKept limits opened digest p q
        (finish clock before after waiting queued later n r date output result) k =
      k

  pub Steps-IsKept :
      (limits : ExecutionLimits F) (opened : ℕ) (digest : Digest) (p q : Progress F)
      → Steps digest p q
      → IsKept limits opened p.run.budget
      → IsKept limits opened q.run.budget
  Steps-IsKept limits opened digest p q (stay same) k = k
  Steps-IsKept limits opened digest p q (step first m last s ss) k =
      Steps-IsKept limits opened digest m q ss (Step-IsKept limits opened digest p m s k)

  -- However the nodes of a run interleave and whatever model calls their agents reserve, a run
  -- whose budget is opened with accepted limits keeps these limits, and the nodes that start, the
  -- model calls, the corrections and the cost stay within them.
  pub Steps-budget :
      (raw : RawLimits F) (limits : ExecutionLimits F) (opened : ℕ) (digest : Digest)
      (p q : Progress F)
      → post_init raw ≡ ok limits
      → p.run.budget ≡ open_budget limits opened
      → Steps digest p q
      → IsKept limits opened q.run.budget
  Steps-budget raw limits opened digest p q h e steps =
      Steps-IsKept limits opened digest p q steps (
        rw e
          (record { within = open_budget-IsWithin raw limits opened h; same = refl; since = refl }))
