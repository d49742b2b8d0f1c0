-- ===== src/Budget/Usage.antt =====
-- runtime/run_budget.py: `RunBudget` and what it charges. A method returns the exception that it
-- raises, if any, beside the budget as it is left.
use world_class_seo_agent_sy.Prelude.{
  ℕ, ◌+◌, ◌*◌, ◌-◌, Bool, true, false, not, ◌&&◌, ◌||◌, Option, none, some, Result, ok, err, ◌>>=◌,
  ◌>>◌, raise_if, ltb, if◌then◌else◌,
}
use world_class_seo_agent_sy.Budget.Limits.{Float, ExecutionLimits}

-- `BudgetExceeded`, by its message.
pub data BudgetExceeded : Type 0 where
  runtime_exceeded too_many_nodes too_many_llm_calls too_many_corrections : BudgetExceeded
  estimate_unavailable cost_unknown invalid_estimate total_not_finite above_ceiling : BudgetExceeded

module _ (F : Float) where
  open F use {Number}

  pub record BudgetUsage : Type 0 where
    pub nodes_started : ℕ
    pub llm_calls : ℕ
    pub correction_calls : ℕ
    pub estimated_cost : Option Number

  pub record RunBudget : Type 0 where
    pub limits : ExecutionLimits F
    pub usage : BudgetUsage
    pub started : ℕ

  -- What the estimator of a client returns: `None`, a number, or an object that is no number (a
  -- Boolean among them); `raises` for one that fails, and `absent` where it is not callable.
  pub data Estimator : Type 0 where
    absent raises quotes_none quotes_other : Estimator
    quotes : Number → Estimator

  pub data Estimate : Type 0 where
    unknown other : Estimate
    amount : Number → Estimate

module _ (F : Float) where
  open F use {Number, plus, is_finite, exceeds}

  pub add_cost : Option Number → Number → Option Number
  add_cost none c = none
  add_cost (some total) c = some (plus total c)

  pub finite_total : Option Number → Bool
  finite_total none = true
  finite_total (some total) = is_finite total

  pub over_ceiling : Option Number → Option Number → Bool
  over_ceiling none total = false
  over_ceiling (some ceiling) none = true
  over_ceiling (some ceiling) (some total) = exceeds total ceiling

module _ {F : Float} where
  open F use {Number, zero_cost, is_finite, is_negative}

  pub estimate_request_cost : Estimator F → Result BudgetExceeded (Estimate F)
  estimate_request_cost Estimator.absent = ok Estimate.unknown
  estimate_request_cost Estimator.raises = err estimate_unavailable
  estimate_request_cost Estimator.quotes_none = ok Estimate.unknown
  estimate_request_cost Estimator.quotes_other = ok Estimate.other
  estimate_request_cost (Estimator.quotes c) = ok (Estimate.amount c)

  unfoldable pub cost_total :
      Option Number → Estimate F → Option Number → Result BudgetExceeded (Option Number)
  unfolding add_cost finite_total over_ceiling
  cost_total current Estimate.unknown none = ok none
  cost_total current Estimate.unknown (some ceiling) = err cost_unknown
  cost_total current Estimate.other ceiling = err invalid_estimate
  cost_total current (Estimate.amount c) ceiling =
      if not (is_finite c) || is_negative c
      then err invalid_estimate
      else (let total = add_cost F current c in
          if not (finite_total F total)
          then err total_not_finite
          else if over_ceiling F ceiling total
          then err above_ceiling
          else ok total)

  abbrev pub open_budget : ExecutionLimits F → ℕ → RunBudget F
  open_budget limits now = record {
    limits = limits;
    usage = record {
      nodes_started = 0;
      llm_calls = 0;
      correction_calls = 0;
      estimated_cost = some zero_cost;
    };
    started = now;
  }

  unfoldable pub check_runtime : ℕ → RunBudget F → Result BudgetExceeded (Unit {0})
  check_runtime now b =
      raise_if (ltb (b.limits.runtime_seconds * 1000) (now - b.started)) runtime_exceeded

  -- Either the exception, with the budget untouched, or the budget with its new usage.
  abbrev settle :
      RunBudget F → Result BudgetExceeded (BudgetUsage F) → Option BudgetExceeded × RunBudget F
  settle b (ok usage) = (none, record b { usage = usage })
  settle b (err e) = (some e, b)

  unfoldable pub reserve_node : ℕ → RunBudget F → Option BudgetExceeded × RunBudget F
  unfolding check_runtime
  reserve_node now b = settle b (do
    check_runtime now b
    raise_if (ltb b.limits.nodes (b.usage.nodes_started + 1)) too_many_nodes
    ok (record b.usage { nodes_started = b.usage.nodes_started + 1 }))

  unfoldable pub reserve_llm_call :
      ℕ → Bool → Estimate F → RunBudget F → Option BudgetExceeded × RunBudget F
  unfolding check_runtime
  reserve_llm_call now correction estimate b = settle b (do
    check_runtime now b
    raise_if (ltb b.limits.llm_calls (b.usage.llm_calls + 1)) too_many_llm_calls
    raise_if (correction && ltb b.limits.correction_attempts (b.usage.correction_calls + 1))
        too_many_corrections
    next_cost ← cost_total b.usage.estimated_cost estimate b.limits.estimated_cost
    ok (record {
      nodes_started = b.usage.nodes_started;
      llm_calls = b.usage.llm_calls + 1;
      correction_calls =
          (if correction then b.usage.correction_calls + 1 else b.usage.correction_calls);
      estimated_cost = next_cost;
    }))

  abbrev after_estimate :
      ℕ
      → Bool
      → RunBudget F
      → Result BudgetExceeded (Estimate F)
      → Option BudgetExceeded × RunBudget F
  after_estimate now correction b (ok estimate) = reserve_llm_call now correction estimate b
  after_estimate now correction b (err e) = (some e, b)

  unfoldable pub reserve_model_call :
      ℕ → Bool → Estimator F → RunBudget F → Option BudgetExceeded × RunBudget F
  unfolding estimate_request_cost reserve_llm_call
  reserve_model_call now correction client b =
      after_estimate now correction b (estimate_request_cost client)

  -- `snapshot`, without the rounding of the elapsed time.
  unfoldable pub snapshot :
      ℕ → RunBudget F → Result BudgetExceeded (ExecutionLimits F × BudgetUsage F × ℕ)
  unfolding check_runtime
  snapshot now b = do check_runtime now b; ok (b.limits, b.usage, now - b.started)
