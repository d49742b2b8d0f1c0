-- ===== src/Budget/Tests.antt =====
-- Runs of a budget, with costs as whole numbers.
use world_class_seo_agent_sy.Prelude.{
  ℕ, ◌+◌, ◌≡◌, ◌↔◌, refl, true, false, some, List, [], ◌∷◌, ok, err, ltb, arith,
}
use world_class_seo_agent_sy.Budget.Limits.{
  Float, RawCost, RawLimits, ExecutionLimits, natural, negative, post_init,
  not_non_negative_integer, max_llm_calls,
}
use world_class_seo_agent_sy.Budget.Usage.{Estimator, Estimate, open_budget, cost_total}
use world_class_seo_agent_sy.Budget.Laws.{IsValid, post_init_iff}
use world_class_seo_agent_sy.Budget.Runs.{
  Call, node, llm, model, reserve, reserve_all, IsWithin, reserve_all-IsWithin, Settles,
  reserve-Settles,
}

pub not_above : (c : ℕ) → ltb c 0 ≡ false
not_above c = ground arith

abbrev pub whole : Float
whole = record {
  Number = ℕ;
  zero_cost = 0;
  plus = λ a b. a + b;
  is_finite = λ c. true;
  is_negative = λ c. false;
  exceeds = λ a b. ltb b a;
  zero_lem = λ c h. not_above c;
}

abbrev pub raw : RawLimits whole
raw = record {
  nodes = natural 2;
  llm_calls = natural 3;
  parallel_agents = natural 1;
  correction_attempts = natural 1;
  workflow_depth = natural 3;
  runtime_seconds = natural 900;
  estimated_cost = RawCost.number 10;
}

abbrev pub limits : ExecutionLimits whole
limits = record {
  nodes = 2;
  llm_calls = 3;
  parallel_agents = 1;
  correction_attempts = 1;
  workflow_depth = 3;
  runtime_seconds = 900;
  estimated_cost = some 10;
}

pub post_init-raw : post_init raw ≡ ok limits
unfolding post_init
post_init-raw = refl

post_init_negative :
    post_init (record raw { llm_calls = negative 0 }) ≡ err (not_non_negative_integer max_llm_calls)
unfolding post_init
post_init_negative = refl

abbrev calls : List (Call whole)
calls =
    node 0
    ∷ llm 5 false (Estimate.amount 6)
    ∷ model 6 true (Estimator.quotes 6)
    ∷ node 7
    ∷ node 8
    ∷ []

reserve-calls :
    ((reserve_all calls (open_budget limits 0)).usage
      ≡ record { nodes_started = 2; llm_calls = 1; correction_calls = 0; estimated_cost = some 6 })
unfolding reserve_all reserve cost_total
reserve-calls = refl

post_init_iff_example : (post_init raw ≡ ok limits) ↔ IsValid raw limits
post_init_iff_example = post_init_iff raw limits

reserve_all-IsWithin_example : IsWithin (reserve_all calls (open_budget limits 0))
reserve_all-IsWithin_example = reserve_all-IsWithin raw limits 0 calls post_init-raw

reserve-Settles_example :
    Settles
      (llm 5 true (Estimate.amount 6))
      (open_budget limits 0)
      (reserve (llm 5 true (Estimate.amount 6)) (open_budget limits 0))
reserve-Settles_example = reserve-Settles (llm 5 true (Estimate.amount 6)) (open_budget limits 0)
