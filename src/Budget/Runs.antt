-- ===== src/Budget/Runs.antt =====
-- Sequences of reservations on one budget, as the nodes of a run make them.
use world_class_seo_agent_sy.Prelude.{
  ℕ, ◌+◌, ◌≤◌, ◌≡◌, refl, Bool, false, Option, none, some, List, [], ◌∷◌, ok, arith, if◌then◌else◌,
  inl, inr, Result-cases, Option-cases,
}
use world_class_seo_agent_sy.Budget.Limits.{Float, RawLimits, ExecutionLimits, post_init}
use world_class_seo_agent_sy.Budget.Usage.{
  BudgetExceeded, RunBudget, Estimator, Estimate, open_budget, cost_total, reserve_node,
  reserve_llm_call, reserve_model_call,
}

module _ (F : Float) where
  open F use {Number, exceeds}

  -- A call of a method of `RunBudget`, with the reading of the clock.
  pub data Call : Type 0 where
    node : (now : ℕ) → Call
    llm : (now : ℕ) (correction : Bool) → Estimate F → Call
    model : (now : ℕ) (correction : Bool) → Estimator F → Call

  abbrev pub UnderCeiling : Option Number → Option Number → Type 0
  UnderCeiling none total = Unit
  UnderCeiling (some ceiling) none = ⊥
  UnderCeiling (some ceiling) (some total) = exceeds total ceiling ≡ false

module _ {F : Float} where
  open F use {Number}

  unfoldable pub reserve : Call F → RunBudget F → Option BudgetExceeded × RunBudget F
  unfolding reserve_node reserve_model_call
  reserve (node now) b = reserve_node now b
  reserve (llm now correction estimate) b = reserve_llm_call now correction estimate b
  reserve (model now correction client) b = reserve_model_call now correction client b

  unfoldable pub reserve_all : List (Call F) → RunBudget F → RunBudget F
  reserve_all [] b = b
  reserve_all (c ∷ cs) b = reserve_all cs (reserve c b).1

  -- What has been charged stays within the limits.
  pub record IsWithin (b : RunBudget F) : Type 0 where
    pub nodes : b.usage.nodes_started ≤ b.limits.nodes
    pub llm_calls : b.usage.llm_calls ≤ b.limits.llm_calls
    pub corrections : b.usage.correction_calls ≤ b.limits.correction_attempts
    pub corrections_are_calls : b.usage.correction_calls ≤ b.usage.llm_calls
    pub cost : UnderCeiling F b.limits.estimated_cost b.usage.estimated_cost

  cost_total-UnderCeiling :
      (current : Option Number) (estimate : Estimate F) (ceiling total : Option Number)
      → cost_total current estimate ceiling ≡ ok total
      → UnderCeiling F ceiling total
  unfolding cost_total
  cost_total-UnderCeiling current estimate ceiling total h = ground arith

  reserve_node-IsWithin : (now : ℕ) (b : RunBudget F) → IsWithin b → IsWithin (reserve_node now b).1
  unfolding reserve_node
  reserve_node-IsWithin now b v = ground arith

  reserve_llm_call-IsWithin :
      (now : ℕ) (correction : Bool) (estimate : Estimate F) (b : RunBudget F)
      → IsWithin b
      → IsWithin (reserve_llm_call now correction estimate b).1
  unfolding reserve_llm_call
  reserve_llm_call-IsWithin now correction estimate b v =
      let current = b.usage.estimated_cost in
      let ceiling = b.limits.estimated_cost in
      elim (Result-cases (cost_total current estimate ceiling)) [
        | inl (total, h) ↦
            ground (arith, h, cost_total-UnderCeiling current estimate ceiling total h)
        | inr (e, h) ↦ ground (arith, h)
      ]

  pub reserve-IsWithin : (c : Call F) (b : RunBudget F) → IsWithin b → IsWithin (reserve c b).1
  unfolding reserve
  reserve-IsWithin (node now) b v = reserve_node-IsWithin now b v
  reserve-IsWithin (llm now correction estimate) b v =
      reserve_llm_call-IsWithin now correction estimate b v
  reserve-IsWithin (model now correction Estimator.absent) b v =
      reserve_llm_call-IsWithin now correction Estimate.unknown b v
  reserve-IsWithin (model now correction Estimator.raises) b v = v
  reserve-IsWithin (model now correction Estimator.quotes_none) b v =
      reserve_llm_call-IsWithin now correction Estimate.unknown b v
  reserve-IsWithin (model now correction Estimator.quotes_other) b v =
      reserve_llm_call-IsWithin now correction Estimate.other b v
  reserve-IsWithin (model now correction (Estimator.quotes c)) b v =
      reserve_llm_call-IsWithin now correction (Estimate.amount c) b v

  reserve_all-keeps :
      (cs : List (Call F)) (b : RunBudget F) → IsWithin b → IsWithin (reserve_all cs b)
  unfolding reserve_all
  reserve_all-keeps [] b v = v
  reserve_all-keeps (c ∷ cs) b v = reserve_all-keeps cs (reserve c b).1 (reserve-IsWithin c b v)

  pub open_budget-IsWithin :
      (raw : RawLimits F) (limits : ExecutionLimits F) (now : ℕ)
      → post_init raw ≡ ok limits
      → IsWithin (open_budget limits now)
  unfolding post_init
  open_budget-IsWithin raw limits now h = elim (Option-cases limits.estimated_cost) [
    | inl e ↦ ground (arith, e)
    | inr (c, e) ↦ ground (arith, e, F.zero_lem c)
  ]

  -- Whatever calls are made on a budget that is opened with accepted limits, refused calls among them,
  -- the nodes, model calls and corrections that are charged stay within their limits, corrections are
  -- counted as model calls, and under a cost ceiling the total is known and does not exceed it.
  pub reserve_all-IsWithin :
      (raw : RawLimits F) (limits : ExecutionLimits F) (now : ℕ) (cs : List (Call F))
      → post_init raw ≡ ok limits
      → IsWithin (reserve_all cs (open_budget limits now))
  reserve_all-IsWithin raw limits now cs h =
      reserve_all-keeps cs _ (open_budget-IsWithin raw limits now h)

  -- What a call charges if it is accepted: nodes, model calls and corrections.
  abbrev pub price : Call F → ℕ × ℕ × ℕ
  price (node now) = (1, 0, 0)
  price (llm now correction estimate) = (0, 1, if correction then 1 else 0)
  price (model now correction client) = (0, 1, if correction then 1 else 0)

  -- The estimate of a call, if it has one: a node costs nothing, and a client that raises has none.
  abbrev pub estimate_of : Call F → Option (Estimate F)
  estimate_of (node now) = none
  estimate_of (llm now correction estimate) = some estimate
  estimate_of (model now correction Estimator.absent) = some Estimate.unknown
  estimate_of (model now correction Estimator.raises) = none
  estimate_of (model now correction Estimator.quotes_none) = some Estimate.unknown
  estimate_of (model now correction Estimator.quotes_other) = some Estimate.other
  estimate_of (model now correction (Estimator.quotes c)) = some (Estimate.amount c)

  -- The total after an estimate is added: an unknown one makes it unknown, and it stays so.
  abbrev pub Costs : Option (Estimate F) → Option Number → Option Number → Type 0
  Costs none before after = after ≡ before
  Costs (some Estimate.unknown) before after = after ≡ none
  Costs (some Estimate.other) before after = ⊥
  Costs (some (Estimate.amount c)) none after = after ≡ none
  Costs (some (Estimate.amount c)) (some total) after = after ≡ some (F.plus total c)

  -- The budget after a call that charges its price.
  pub record IsCharged (c : Call F) (b b' : RunBudget F) : Type 0 where
    pub limits : b'.limits ≡ b.limits
    pub started : b'.started ≡ b.started
    pub nodes : b'.usage.nodes_started ≡ b.usage.nodes_started + (price c).0
    pub llm_calls : b'.usage.llm_calls ≡ b.usage.llm_calls + (price c).1
    pub corrections : b'.usage.correction_calls ≡ b.usage.correction_calls + (price c).2
    pub cost : Costs (estimate_of c) b.usage.estimated_cost b'.usage.estimated_cost

  -- A refused call changes nothing; an accepted one charges its price.
  abbrev pub Settles : Call F → RunBudget F → Option BudgetExceeded × RunBudget F → Type 0
  Settles c b (some e, b') = b' ≡ b
  Settles c b (none, b') = IsCharged c b b'

  cost_total-Costs :
      (current : Option Number) (estimate : Estimate F) (ceiling total : Option Number)
      → cost_total current estimate ceiling ≡ ok total
      → Costs (some estimate) current total
  unfolding cost_total
  cost_total-Costs current Estimate.unknown none total h = ground (arith, h)
  cost_total-Costs current Estimate.unknown (some ceiling) total h = cc h
  cost_total-Costs current Estimate.other ceiling total h = cc h
  cost_total-Costs none (Estimate.amount c) ceiling total h = ground (arith, h)
  cost_total-Costs (some before) (Estimate.amount c) ceiling total h = ground (arith, h)

  node-Settles : (now : ℕ) (b : RunBudget F) → Settles (node now) b (reserve_node now b)
  unfolding reserve_node
  node-Settles now b = ground arith

  -- A model call that charges an estimate, under the name that the call has.
  llm-Settles :
      (c : Call F) (now : ℕ) (correction : Bool) (estimate : Estimate F) (b : RunBudget F)
      → price c ≡ (0, 1, if correction then 1 else 0)
      → estimate_of c ≡ some estimate
      → Settles c b (reserve_llm_call now correction estimate b)
  unfolding reserve_llm_call
  llm-Settles c now correction estimate b p e =
      let current = b.usage.estimated_cost in
      let ceiling = b.limits.estimated_cost in
      elim (Result-cases (cost_total current estimate ceiling)) [
        | inl (total, h) ↦
            let paid : Costs (estimate_of c) current total =
              rw e (cost_total-Costs current estimate ceiling total h) in
            ground (arith, h, paid, p)
        | inr (x, h) ↦ ground (arith, h)
      ]

  -- Each call either is refused and leaves the whole budget as it was, or is accepted and charges
  -- exactly its price in nodes, model calls and corrections, and its estimate to the cost, which is
  -- unknown once an estimate was, with the limits and the start time unchanged.
  pub reserve-Settles : (c : Call F) (b : RunBudget F) → Settles c b (reserve c b)
  unfolding reserve
  reserve-Settles (node now) b = node-Settles now b
  reserve-Settles (llm now correction estimate) b =
      llm-Settles (llm now correction estimate) now correction estimate b refl refl
  reserve-Settles (model now correction Estimator.absent) b =
      llm-Settles (model now correction Estimator.absent) now correction Estimate.unknown b refl
        refl
  reserve-Settles (model now correction Estimator.raises) b = refl
  reserve-Settles (model now correction Estimator.quotes_none) b =
      llm-Settles (model now correction Estimator.quotes_none) now correction Estimate.unknown b
        refl refl
  reserve-Settles (model now correction Estimator.quotes_other) b =
      llm-Settles (model now correction Estimator.quotes_other) now correction Estimate.other b refl
        refl
  reserve-Settles (model now correction (Estimator.quotes c)) b =
      llm-Settles (model now correction (Estimator.quotes c)) now correction (Estimate.amount c) b
        refl refl
