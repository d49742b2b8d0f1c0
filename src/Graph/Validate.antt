-- ===== src/Graph/Validate.antt =====
-- `WorkflowGraph.validate` and its three parts.
use world_class_seo_agent_sy.Prelude.{
  ℕ, zero, suc, ◌+◌, max, not, String, Option, none, some, List, [], ◌∷◌, Result, ok, err, ◌>>=◌,
  ◌>>◌, raise_if, ltb, length, find, is_empty, contains, subset, has_duplicates, lookup, insert,
  ◌==◌, if◌then◌else◌,
}
use world_class_seo_agent_sy.Graph.Nodes.{
  WorkflowNode, WorkflowGraph, GraphError, no_nodes, duplicate_ids, no_deliverable, cycle,
  deliverable_not_terminal, too_many_nodes, unknown_deliverable, unknown_dependencies,
  self_dependency, too_deep, missing_node, out_of_fuel, ids,
}

-- The loop over the nodes in `_validate_nodes`.
unfoldable pub check_dependencies : List String → List WorkflowNode → Result GraphError (Unit {0})
check_dependencies known [] = ok tt
check_dependencies known (node ∷ nodes) = do
  raise_if (not (subset node.depends_on known)) (unknown_dependencies node.id)
  raise_if (contains node.depends_on node.id) (self_dependency node.id)
  check_dependencies known nodes

unfoldable pub validate_nodes : ℕ → WorkflowGraph → Result GraphError (Unit {0})
unfolding check_dependencies
validate_nodes max_nodes g = do
  raise_if (is_empty g.nodes) no_nodes
  raise_if (ltb max_nodes (length g.nodes)) (too_many_nodes (length g.nodes))
  raise_if (has_duplicates (ids g.nodes)) duplicate_ids
  raise_if (g.deliverable_node_id == "") no_deliverable
  raise_if (not (contains (ids g.nodes) g.deliverable_node_id))
      (unknown_deliverable g.deliverable_node_id)
  check_dependencies (ids g.nodes) g.nodes

-- The dict `depths`.
abbrev pub Depths : Type 0
Depths = List (String × ℕ)

-- `max((depth(dep) for dep in deps), default=0)`, with `depths` as the calls leave it.
unfoldable pub max_depth :
    (String → Depths → Result GraphError (ℕ × Depths))
    → List String
    → Depths
    → Result GraphError (ℕ × Depths)
max_depth depth [] depths = ok (0, depths)
max_depth depth (dep ∷ deps) depths = depth dep depths >>= λ (value, depths').
    max_depth depth deps depths' >>= λ (rest, depths''). ok (max value rest, depths'')

abbrev pub node_of : List WorkflowNode → String → Option WorkflowNode
node_of nodes node_id = find (λ n. n.id == node_id) nodes

-- What `depth` does with a node that is neither in `depths` nor in `visiting`: the nested calls run
-- with the node in `visiting`, which is as it was before when they have returned.
abbrev pub visit :
    (String → Depths → Result GraphError (ℕ × Depths))
    → String
    → Option WorkflowNode
    → Depths
    → Result GraphError (ℕ × Depths)
visit depth node_id none depths = err missing_node
visit depth node_id (some node) depths =
    max_depth depth node.depends_on depths >>= λ (value, depths').
    ok (1 + value, insert node_id (1 + value) depths')

abbrev pub or_known :
    Option ℕ → Depths → Result GraphError (ℕ × Depths) → Result GraphError (ℕ × Depths)
or_known (some value) depths otherwise = ok (value, depths)
or_known none depths otherwise = otherwise

-- The nested function `depth`. Each nested call has one more node in `visiting`, so one more than the
-- number of nodes is enough fuel.
unfoldable pub depth_of :
    List WorkflowNode → ℕ → List String → String → Depths → Result GraphError (ℕ × Depths)
depth_of nodes zero visiting node_id depths = err out_of_fuel
depth_of nodes (suc fuel) visiting node_id depths =
    let found =
      visit (depth_of nodes fuel (node_id ∷ visiting)) node_id (node_of nodes node_id) depths in
    or_known (lookup node_id depths) depths (if contains visiting node_id then err cycle else found)

unfoldable pub validate_depth : ℕ → WorkflowGraph → Result GraphError (Unit {0})
validate_depth limit g =
    max_depth (depth_of g.nodes (suc (length g.nodes)) []) (ids g.nodes) []
    >>= λ (graph_depth, depths). raise_if (ltb limit graph_depth) (too_deep graph_depth)

-- `downstream`, as the ids of the nodes that depend on `node_id`.
unfoldable pub downstream : List WorkflowNode → String → List String
downstream [] node_id = []
downstream (node ∷ nodes) node_id =
    let rest = downstream nodes node_id in
    if contains node.depends_on node_id then node.id ∷ rest else rest

unfoldable pub validate_deliverable : WorkflowGraph → Result GraphError (Unit {0})
unfolding downstream
validate_deliverable g =
    raise_if (not (is_empty (downstream g.nodes g.deliverable_node_id))) deliverable_not_terminal

unfoldable pub validate : ℕ → ℕ → WorkflowGraph → Result GraphError (Unit {0})
validate max_nodes limit g = do
  validate_nodes max_nodes g
  validate_depth limit g
  validate_deliverable g
