-- ===== src/Graph/Levels.antt =====
-- `WorkflowGraph.levels`: topological levels, each sorted by node id.
use world_class_seo_agent_sy.Prelude.{
  ℕ, zero, suc, Bool, not, String, List, [], ◌∷◌, ◌++◌, Result, ok, err, ◌>>=◌, length, keep,
  contains, subset, sort_by, is_empty, ◌==◌, if◌then◌else◌,
}
use world_class_seo_agent_sy.Graph.Nodes.{
  WorkflowNode, WorkflowGraph, GraphError, cycle, out_of_fuel, ids,
}

-- `remaining[node.id] = node`, with the dict as the list of its values.
abbrev pub put_node : WorkflowNode → List WorkflowNode → List WorkflowNode
put_node node [] = node ∷ []
put_node node (other ∷ rest) =
    if other.id == node.id then node ∷ rest else other ∷ put_node node rest

-- `{node.id: node for node in nodes}`, from the dict built so far
unfoldable pub by_id : List WorkflowNode → List WorkflowNode → List WorkflowNode
by_id built [] = built
by_id built (node ∷ nodes) = by_id (put_node node built) nodes

abbrev pub is_ready : List String → WorkflowNode → Bool
is_ready completed node = subset node.depends_on completed

-- The `pop`s of a round: the nodes with one of these ids go.
abbrev pub without : List String → List WorkflowNode → List WorkflowNode
without popped remaining = keep (λ n. not (contains popped n.id)) remaining

-- The loop `while remaining`. Each round pops a node, so the number of nodes is enough fuel.
unfoldable pub rounds :
    ℕ → List String → List WorkflowNode → Result GraphError (List (List WorkflowNode))
rounds fuel completed [] = ok []
rounds zero completed (n ∷ ns) = err out_of_fuel
rounds (suc fuel) completed (n ∷ ns) =
    let ready = sort_by (λ m. m.id) (keep (is_ready completed) (n ∷ ns)) in
    let later = rounds fuel (completed ++ ids ready) (without (ids ready) (n ∷ ns)) in
    let result = later >>= λ levels. ok (ready ∷ levels) in
    if is_empty (keep (is_ready completed) (n ∷ ns)) then err cycle else result

unfoldable pub levels : WorkflowGraph → Result GraphError (List (List WorkflowNode))
levels g = rounds (length g.nodes) [] (by_id [] g.nodes)
