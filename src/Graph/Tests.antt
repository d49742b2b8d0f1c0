-- ===== src/Graph/Tests.antt =====
-- Runs on small graphs, and the theorems at concrete inputs.
use mathlib.Core.List.{Perm, flatten}
use world_class_seo_agent_sy.Prelude.{◌≤◌, ◌≡◌, ◌↔◌, refl, String, List, [], ◌∷◌, ok, err, length}
use world_class_seo_agent_sy.Routing.Routes.{route}
use world_class_seo_agent_sy.Graph.Nodes.{WorkflowNode, WorkflowGraph, cycle, too_deep}
use world_class_seo_agent_sy.Graph.Validate.{
  validate, validate_nodes, validate_depth, validate_deliverable, depth_of, max_depth, downstream,
}
use world_class_seo_agent_sy.Graph.Levels.{levels, rounds, by_id}
use world_class_seo_agent_sy.Graph.Build.{node, build_workflow_graph}
use world_class_seo_agent_sy.Graph.Runnable.{IsRunnable}
use world_class_seo_agent_sy.Graph.Complete.{validate_iff}
use world_class_seo_agent_sy.Graph.Order.{IsOrdered, levels-IsOrdered}
use world_class_seo_agent_sy.Graph.Built.{build-validate}

program : Unit {0}
unfolding validate validate_nodes validate_depth validate_deliverable depth_of max_depth downstream
    levels rounds by_id
program = tt

abbrev graph : List WorkflowNode → String → WorkflowGraph
graph nodes deliverable = record {
  id = "g";
  nodes = nodes;
  deliverable_node_id = deliverable;
  capacity_exclusions = [];
  declared_control_handoffs = [];
}

abbrev diamond : WorkflowGraph
diamond =
    graph
      (node "d" "D" ("b" ∷ "c" ∷ []) "report"
        ∷ node "c" "C" ("a" ∷ []) "lead"
        ∷ node "b" "B" ("a" ∷ []) "lead"
        ∷ node "a" "A" [] "support"
        ∷ [])
      "d"

validate-diamond : (validate 4 3 diamond ≡ ok tt) × (validate 4 2 diamond ≡ err (too_deep 3))
unfolding program
validate-diamond = (refl, refl)

validate_cycle :
    validate 4 3 (graph (node "a" "A" ("b" ∷ []) "lead" ∷ node "b" "B" ("a" ∷ []) "lead" ∷ []) "a")
    ≡ err cycle
unfolding program
validate_cycle = refl

validate_iff_example : (validate 4 3 diamond ≡ ok tt) ↔ IsRunnable 4 3 diamond
validate_iff_example = validate_iff 4 3 diamond

levels-IsOrdered_example :
    (ls : List (List WorkflowNode)) × (levels diamond ≡ ok ls)
    × IsOrdered [] ls
    × Perm (flatten ls) diamond.nodes
    × (length ls ≤ 3)
levels-IsOrdered_example = levels-IsOrdered 4 3 diamond validate-diamond.0

build-validate_example : validate 20 5 (build_workflow_graph (route "audit") "local retail") ≡ ok tt
build-validate_example = build-validate (route "audit") "local retail"
