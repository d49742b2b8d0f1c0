-- ===== src/Graph/Runnable.antt =====
-- What a runnable graph is, said without the search of `validate`.
use world_class_seo_agent_sy.Prelude.{
  ℕ, ◌≤◌, ◌<◌, ◌≡◌, ◌≢◌, true, false, String, List, [], contains, has_duplicates, All, length,
}
use world_class_seo_agent_sy.Graph.Nodes.{WorkflowNode, WorkflowGraph, ids}
use world_class_seo_agent_sy.Graph.Ranks.{IsClosed}

-- A rank for the nodes: from 1 to `limit`, and above those of the dependencies.
abbrev pub Ranks : (String → ℕ) → ℕ → List WorkflowNode → Type 0
Ranks rank limit nodes =
    All
      (λ n. (1 ≤ rank n.id) × (rank n.id ≤ limit) × All (λ dep. rank dep < rank n.id) n.depends_on)
      nodes

-- A graph that can be run within the limits.
pub record IsRunnable (max_nodes limit : ℕ) (g : WorkflowGraph) : Type 0 where
  pub some_node : g.nodes ≢ []
  pub few : length g.nodes ≤ max_nodes
  pub unique : has_duplicates (ids g.nodes) ≡ false
  pub named : g.deliverable_node_id ≢ ""
  pub known : contains (ids g.nodes) g.deliverable_node_id ≡ true
  pub closed : IsClosed g.nodes (ids g.nodes)
  pub terminal : All (λ n. contains n.depends_on g.deliverable_node_id ≡ false) g.nodes
  pub rank : String → ℕ
  pub ranks : Ranks rank limit g.nodes
