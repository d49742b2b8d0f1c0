-- ===== src/Budget/Limits.antt =====
-- runtime/execution_limits.py: `ExecutionLimits` and its `__post_init__`.
use world_class_seo_agent_sy.Prelude.{
  ℕ, ◌≡◌, Bool, false, not, ◌||◌, Option, none, some, Result, ok, err, ◌>>=◌, ◌>>◌, raise_if, ltb,
  if◌then◌else◌,
}

-- Python's floats, as far as the program uses them: `math.isfinite`, `x < 0`, `x > y` and `x + y`.
pub record Float : Type 1 where
  pub Number : Type 0
  pub zero_cost : Number
  pub plus : Number → Number → Number
  pub is_finite : Number → Bool
  pub is_negative : Number → Bool
  pub exceeds : Number → Number → Bool
  -- `not 0.0 > c` for a `c` that is not below zero
  pub zero_lem : (c : Number) → is_negative c ≡ false → exceeds zero_cost c ≡ false

-- What a caller passes for an integer limit: an `int` by its sign, or another object.
pub data RawInt : Type 0 where
  natural : ℕ → RawInt
  negative : ℕ → RawInt
  not_int : RawInt

pub data LimitName : Type 0 where
  max_nodes max_llm_calls max_parallel_agents max_correction_attempts : LimitName
  max_workflow_depth max_runtime_seconds max_estimated_cost : LimitName

-- `InvalidExecutionLimits`, by its message.
pub data LimitError : Type 0 where
  not_non_negative_integer : LimitName → LimitError
  below_one : LimitName → LimitError
  cost_not_finite_non_negative : LimitError

module _ (F : Float) where
  open F use {Number}

  -- `float | None`, as a caller passes it: a Boolean and any other object are refused.
  pub data RawCost : Type 0 where
    unset : RawCost
    number : Number → RawCost
    not_number : RawCost

  pub record RawLimits : Type 0 where
    pub nodes : RawInt
    pub llm_calls : RawInt
    pub parallel_agents : RawInt
    pub correction_attempts : RawInt
    pub workflow_depth : RawInt
    pub runtime_seconds : RawInt
    pub estimated_cost : RawCost

  pub record ExecutionLimits : Type 0 where
    pub nodes : ℕ
    pub llm_calls : ℕ
    pub parallel_agents : ℕ
    pub correction_attempts : ℕ
    pub workflow_depth : ℕ
    pub runtime_seconds : ℕ
    pub estimated_cost : Option Number

-- One round of the loop over `integer_limits`.
pub check_int : LimitName → RawInt → Result LimitError ℕ
check_int name (natural n) = ok n
check_int name (negative n) = err (not_non_negative_integer name)
check_int name not_int = err (not_non_negative_integer name)

module _ {F : Float} where
  open F use {Number, is_finite, is_negative}

  pub check_cost : RawCost F → Result LimitError (Option Number)
  check_cost RawCost.unset = ok none
  check_cost (RawCost.number c) =
      if not (is_finite c) || is_negative c then err cost_not_finite_non_negative else ok (some c)
  check_cost RawCost.not_number = err cost_not_finite_non_negative

  unfoldable pub post_init : RawLimits F → Result LimitError (ExecutionLimits F)
  unfolding check_int check_cost
  post_init raw = do
    nodes ← check_int max_nodes raw.nodes
    llm_calls ← check_int max_llm_calls raw.llm_calls
    parallel_agents ← check_int max_parallel_agents raw.parallel_agents
    correction_attempts ← check_int max_correction_attempts raw.correction_attempts
    workflow_depth ← check_int max_workflow_depth raw.workflow_depth
    runtime_seconds ← check_int max_runtime_seconds raw.runtime_seconds
    raise_if (ltb nodes 1) (below_one max_nodes)
    raise_if (ltb llm_calls 1) (below_one max_llm_calls)
    raise_if (ltb parallel_agents 1) (below_one max_parallel_agents)
    raise_if (ltb workflow_depth 1) (below_one max_workflow_depth)
    raise_if (ltb runtime_seconds 1) (below_one max_runtime_seconds)
    cost ← check_cost raw.estimated_cost
    ok (record {
      nodes = nodes;
      llm_calls = llm_calls;
      parallel_agents = parallel_agents;
      correction_attempts = correction_attempts;
      workflow_depth = workflow_depth;
      runtime_seconds = runtime_seconds;
      estimated_cost = cost;
    })
