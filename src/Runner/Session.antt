-- ===== src/Runner/Session.antt =====
-- The state that a run shares: the fields of the session that it changes, the three dicts of
-- `_execute_graph`, and the budget. Texts of errors and events are kept as data.
use world_class_seo_agent_sy.Prelude.{ℕ, ◌+◌, Bool, String, List, [], ◌∷◌, ◌++◌, length}
use world_class_seo_agent_sy.Budget.Limits.{Float}
use world_class_seo_agent_sy.Budget.Usage.{BudgetExceeded, RunBudget}
use world_class_seo_agent_sy.State.{Handoff}
use world_class_seo_agent_sy.Handoff.Outputs.{AgentOutput}
use world_class_seo_agent_sy.Handoff.Edges.{NodeState, States, Outputs}

-- A text of an error: two that the runner writes, and those of the executor.
pub data Detail : Type 0 where
  incomplete_dependencies : List String → Detail
  over_budget : BudgetExceeded → Detail
  reported : String → Detail

-- `WorkflowEvent`; its number is its place in the list, and its time is left out.
pub data EventState : Type 0 where
  running : EventState
  ended : NodeState → EventState

pub record Event : Type 0 where
  pub number : ℕ
  pub node_id : String
  pub agent : String
  pub state : EventState
  pub detail : List Detail

module _ (F : Float) where
  pub record Run : Type 0 where
    pub session_id : String
    pub evidence_ids : List String
    pub open_risks : List String
    pub handoffs : List Handoff
    pub agent_outputs : List AgentOutput
    pub events : List Event
    pub outputs : Outputs
    pub states : States
    pub errors : List (String × List Detail)
    pub budget : RunBudget F

module _ {F : Float} where
  -- `session.add_event`
  abbrev pub add_event : String → String → EventState → List Detail → Run F → Run F
  add_event node_id agent state detail r = record r {
    events =
        r.events
        ++ record {
          number = 1 + length r.events;
          node_id = node_id;
          agent = agent;
          state = state;
          detail = detail;
        }
          ∷ [];
  }

-- `ToolDispatchResult`, with the fields that the runner reads.
pub record ToolResult : Type 0 where
  pub tool : String
  pub status : String
  pub evidence_state : String
  pub required : Bool

-- What the executor returns with an output.
pub record AgentResult : Type 0 where
  pub status : String
  pub synthetic : Bool
  pub errors : List String
