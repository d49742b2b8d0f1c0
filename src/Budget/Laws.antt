-- ===== src/Budget/Laws.antt =====
-- What a valid set of limits is, and what one reservation does.
use world_class_seo_agent_sy.Prelude.{◌≤◌, ◌≡◌, ◌↔◌, true, false, Option, none, some, ok, arith}
use world_class_seo_agent_sy.Budget.Limits.{
  Float, natural, RawCost, RawLimits, ExecutionLimits, post_init,
}

module _ {F : Float} where
  open F use {Number, is_finite, is_negative, exceeds}

  -- A cost ceiling as it is passed and as it is kept.
  abbrev pub SameCost : RawCost F → Option Number → Type 0
  SameCost RawCost.unset kept = kept ≡ none
  SameCost (RawCost.number c) kept =
      (kept ≡ some c) × (is_finite c ≡ true) × (is_negative c ≡ false)
  SameCost RawCost.not_number kept = ⊥

  -- The limits are the integers that were passed, each at or above its least value.
  pub record IsValid (raw : RawLimits F) (l : ExecutionLimits F) : Type 0 where
    pub nodes : raw.nodes ≡ natural l.nodes
    pub llm_calls : raw.llm_calls ≡ natural l.llm_calls
    pub parallel_agents : raw.parallel_agents ≡ natural l.parallel_agents
    pub correction_attempts : raw.correction_attempts ≡ natural l.correction_attempts
    pub workflow_depth : raw.workflow_depth ≡ natural l.workflow_depth
    pub runtime_seconds : raw.runtime_seconds ≡ natural l.runtime_seconds
    pub nodes_pos : 1 ≤ l.nodes
    pub llm_calls_pos : 1 ≤ l.llm_calls
    pub parallel_agents_pos : 1 ≤ l.parallel_agents
    pub workflow_depth_pos : 1 ≤ l.workflow_depth
    pub runtime_seconds_pos : 1 ≤ l.runtime_seconds
    pub cost : SameCost raw.estimated_cost l.estimated_cost

  post_init-IsValid :
      (raw : RawLimits F) (l : ExecutionLimits F) → post_init raw ≡ ok l → IsValid raw l
  unfolding post_init
  post_init-IsValid raw l h = ground arith

  IsValid-post_init :
      (raw : RawLimits F) (l : ExecutionLimits F) → IsValid raw l → post_init raw ≡ ok l
  unfolding post_init
  IsValid-post_init raw l h = ground arith

  -- Limits are accepted exactly when each is a non-negative integer, all but the number of correction
  -- attempts are at least 1, and the cost ceiling is unset or a finite non-negative number; they are
  -- kept as they were passed.
  pub post_init_iff :
      (raw : RawLimits F) (l : ExecutionLimits F) → (post_init raw ≡ ok l) ↔ IsValid raw l
  post_init_iff raw l = (post_init-IsValid raw l, IsValid-post_init raw l)
