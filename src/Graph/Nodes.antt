-- ===== src/Graph/Nodes.antt =====
-- runtime/workflow_graph.py: `WorkflowNode`, `WorkflowGraph`, `WorkflowGraphError`.
use world_class_seo_agent_sy.Prelude.{ℕ, Bool, String, Option, List, map}
use world_class_seo_agent_sy.State.{HandoffContract}

pub record WorkflowNode : Type 0 where
  pub id : String
  pub agent : String
  pub depends_on : List String
  pub required : Bool
  pub role : String
  pub condition : Option String

pub record CapacityExclusion : Type 0 where
  pub agent : String
  pub reason : String
  pub status : String

-- The value under "handoff" in a declared control: an exact contract, another dict, of which only the
-- text of its "handoff_id" is read, or no dict. A missing key reads as the dict with no id.
pub data ContractValue : Type 0 where
  contract : HandoffContract → ContractValue
  other_dict : (handoff_id : String) → ContractValue
  not_dict : ContractValue

pub record ControlDeclaration : Type 0 where
  pub keys : List String
  pub control_type : Option String
  pub handoff : ContractValue

pub record WorkflowGraph : Type 0 where
  pub id : String
  pub nodes : List WorkflowNode
  pub deliverable_node_id : String
  pub capacity_exclusions : List CapacityExclusion
  pub declared_control_handoffs : List ControlDeclaration

-- `WorkflowGraphError` by its message. `missing_node` is the `StopIteration` or `KeyError` of a
-- lookup that fails, and `out_of_fuel` is no outcome of the program.
pub data GraphError : Type 0 where
  no_nodes duplicate_ids no_deliverable cycle deliverable_not_terminal : GraphError
  too_many_nodes : ℕ → GraphError
  unknown_deliverable unknown_dependencies self_dependency : String → GraphError
  too_deep : ℕ → GraphError
  missing_node out_of_fuel : GraphError

abbrev pub ids : List WorkflowNode → List String
ids nodes = map (λ n. n.id) nodes
