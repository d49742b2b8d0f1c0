-- ===== src/Runner/Schedule.antt =====
-- `_execute_graph` of runtime/workflow_runner.py as a step relation. The nodes of a level run at
-- the same time: each begins, waits for the semaphore, runs and ends, in any order, and the executor
-- may return any output and reserve model calls in between, with any client. The semaphore lets any
-- of the waiting nodes go on, not only the first. The clock, which is read when a node begins and
-- when a model call is reserved, does not go back.
use world_class_seo_agent_sy.Prelude.{
  ◌≡◌, ℕ, ◌≤◌, ◌<◌, Bool, true, false, String, List, [], ◌∷◌, ◌++◌, length, ok,
}
use world_class_seo_agent_sy.Budget.Limits.{Float}
use world_class_seo_agent_sy.Budget.Usage.{Estimator, reserve_model_call}
use world_class_seo_agent_sy.Graph.Nodes.{WorkflowNode}
use world_class_seo_agent_sy.Handoff.Outputs.{AgentOutput}
use world_class_seo_agent_sy.Handoff.Receipts.{Digest}
use world_class_seo_agent_sy.Runner.Session.{Run, AgentResult}
use world_class_seo_agent_sy.Runner.Nodes.{start_node, finish_node}

-- The last reading of the clock, the nodes of the level that have not begun, those that wait for
-- the semaphore, those that run, and the later levels.
pub record Progress (F : Float) : Type 0 where
  pub clock : ℕ
  pub waiting : List WorkflowNode
  pub queued : List WorkflowNode
  pub executing : List WorkflowNode
  pub later : List (List WorkflowNode)
  pub run : Run F

abbrev pub at :
    {F : Float}
    → ℕ
    → (waiting queued executing : List WorkflowNode) → List (List WorkflowNode)
    → Run F
    → Progress F
at clock waiting queued executing later r = record {
  clock = clock;
  waiting = waiting;
  queued = queued;
  executing = executing;
  later = later;
  run = r;
}

module _ {F : Float} (digest : Digest) where
  pub data Step : Progress F → Progress F → Type 0 where
    next_level :
        (clock : ℕ) (level : List WorkflowNode) (later : List (List WorkflowNode)) (r : Run F)
        → Step (at clock [] [] [] (level ∷ later) r) (at clock level [] [] later r)
    refuse :
        (clock now : ℕ) (before after queued executing : List WorkflowNode)
        (later : List (List WorkflowNode)) (node : WorkflowNode) (r r' : Run F)
        → clock ≤ now
        → start_node now node r ≡ ok (false, r')
        → Step
            (at clock (before ++ node ∷ after) queued executing later r)
            (at now (before ++ after) queued executing later r')
    start :
        (clock now : ℕ) (before after queued executing : List WorkflowNode)
        (later : List (List WorkflowNode)) (node : WorkflowNode) (r r' : Run F)
        → clock ≤ now
        → start_node now node r ≡ ok (true, r')
        → Step
            (at clock (before ++ node ∷ after) queued executing later r)
            (at now (before ++ after) (node ∷ queued) executing later r')
    acquire :
        (clock : ℕ) (waiting before after executing : List WorkflowNode)
        (later : List (List WorkflowNode)) (node : WorkflowNode) (r : Run F)
        → length executing < r.budget.limits.parallel_agents
        → Step
            (at clock waiting (before ++ node ∷ after) executing later r)
            (at clock waiting (before ++ after) (node ∷ executing) later r)
    charge :
        (clock now : ℕ) (waiting queued executing : List WorkflowNode)
        (later : List (List WorkflowNode)) (r : Run F) (correction : Bool) (estimator : Estimator F)
        → clock ≤ now
        → Step (at clock waiting queued executing later r) (
            at now waiting queued executing later
              (record r { budget = (reserve_model_call now correction estimator r.budget).1 }))
    finish :
        (clock : ℕ) (before after waiting queued : List WorkflowNode)
        (later : List (List WorkflowNode)) (node : WorkflowNode) (r : Run F) (date : String)
        (output : AgentOutput) (result : AgentResult)
        → Step (at clock waiting queued (before ++ node ∷ after) later r) (
            at clock waiting queued
              (before ++ after)
              later
              (finish_node digest date node output result r))

  pub data Steps : Progress F → Progress F → Type 0 where
    stay : (p : Progress F) → Steps p p
    step : (p q s : Progress F) → Step p q → Steps q s → Steps p s

  pub Steps-join : (p q s : Progress F) → Steps p q → Steps q s → Steps p s
  Steps-join p q s (stay same) later = later
  Steps-join p q s (step first m last one more) later =
      step first m s one (Steps-join m q s more later)
