-- ===== src/Graph/Accepts.antt =====
-- What `validate` accepts is runnable.
use world_class_seo_agent_sy.Prelude.{
  ℕ, suc, ◌≤◌, ◌<◌, ◌≡◌, ◌≢◌, refl, subst, true, false, String, none, some, List, [], ◌∷◌, ok,
  Ensures, contains, has_duplicates, lookup, eq_iff, eq_refl, All, All-map, arith, Bool-cases, inl,
  inr, ◌⊎◌, Ensures-map, Ensures-bind', ltb→lt, ltb→le, subset_refl, length, is_empty, ltb,
}
use world_class_seo_agent_sy.Graph.Nodes.{
  WorkflowNode, WorkflowGraph, GraphError, cycle, too_deep, ids,
}
use world_class_seo_agent_sy.Graph.Validate.{
  Depths, max_depth, node_of, depth_of, validate_nodes, validate_depth, validate_deliverable,
  validate, check_dependencies, downstream,
}
use world_class_seo_agent_sy.Graph.Runnable.{Ranks, IsRunnable}
use world_class_seo_agent_sy.Graph.Ranks.{
  Below, Below-weaken, unvisited_nil, IsClosed, IsRanked, IsDone, depth_of-Finds, max_depth-IsDone,
}

node_of_later :
    (x : WorkflowNode) (xs nodes : List WorkflowNode)
    → contains (ids xs) x.id ≡ false
    → All (λ n. node_of nodes n.id ≡ some n) xs
    → All (λ n. node_of (x ∷ nodes) n.id ≡ some n) xs
node_of_later x [] nodes h k = tt
node_of_later x (y ∷ ys) nodes h k = (
  ground (arith, eq_iff x.id y.id, eq_iff y.id x.id),
  node_of_later x ys nodes (ground arith) k.1,
)

-- Where ids are unique, a lookup by the id of a node finds that node.
pub node_of_unique :
    (nodes : List WorkflowNode)
    → has_duplicates (ids nodes) ≡ false
    → All (λ n. node_of nodes n.id ≡ some n) nodes
node_of_unique [] h = tt
node_of_unique (x ∷ xs) h =
    (rw eq_refl, node_of_later x xs xs (ground arith) (node_of_unique xs (ground arith)))

abbrev rank_in : Depths → String → ℕ
rank_in depths k = elim (lookup k depths) [ none ↦ 0 | some v ↦ v ]

dep_ranks :
    (depths : Depths) (p r : ℕ) (deps : List String)
    → p < r
    → All (Below depths p) deps
    → All (λ dep. rank_in depths dep < r) deps
dep_ranks depths p r [] h b = tt
dep_ranks depths p r (dep ∷ deps) h ((w, e, le), b) =
    (ground (arith, e), dep_ranks depths p r deps h b)

Ranks-of_depths :
    (all nodes : List WorkflowNode) (depths : Depths) (limit : ℕ)
    → IsRanked all depths
    → All (λ n. node_of all n.id ≡ some n) nodes
    → All (Below depths limit) (ids nodes)
    → Ranks (rank_in depths) limit nodes
Ranks-of_depths all [] depths limit r u b = tt
Ranks-of_depths all (n ∷ ns) depths limit r (u, us) ((w, e, le), b) =
    let (n', found, p, eq, below) = r n.id w e in
    let same : n' ≡ n = ground (arith, found, u) in
    let below' : All (Below depths p) n.depends_on =
      subst (λ m. All (Below depths p) m.depends_on) same below in
    (
      (
        ground (arith, e, eq),
        ground (arith, e),
        dep_ranks depths p (rank_in depths n.id) n.depends_on (ground (arith, e, eq)) below',
      ),
      Ranks-of_depths all ns depths limit r us b,
    )

-- The outcomes of the depth computation.
abbrev pub DepthError : ℕ → GraphError → Type 0
DepthError limit e = (e ≡ cycle) ⊎ ((depth : ℕ) × (e ≡ too_deep depth) × (limit < depth))

depths-IsRanked :
    (g : WorkflowGraph)
    → IsClosed g.nodes (ids g.nodes)
    → Ensures
        (λ r. IsRanked g.nodes r.1 × All (Below r.1 r.0) (ids g.nodes))
        (λ e. e ≡ cycle)
        (max_depth (depth_of g.nodes (suc (length g.nodes)) []) (ids g.nodes) [])
depths-IsRanked g closed =
    Ensures-map (λ r. IsDone g.nodes [] [] r.1 × All (Below r.1 r.0) (ids g.nodes))
      (λ r. IsRanked g.nodes r.1 × All (Below r.1 r.0) (ids g.nodes)) (λ e. e ≡ cycle)
      (λ r (done, below). (done.ranked, below)) _
      (max_depth-IsDone g.nodes [] (depth_of g.nodes (suc (length g.nodes)) [])
        (depth_of-Finds g.nodes closed (suc (length g.nodes)) [] (unvisited_nil g.nodes))
        (ids g.nodes) [] (subset_refl (ids g.nodes)) (λ k v h. cc))

-- On a graph whose dependencies are known, the depth computation ends: it finds a rank for the nodes,
-- or a cycle, or a depth above the limit.
pub validate_depth-Ranks :
    (limit : ℕ) (g : WorkflowGraph)
    → IsClosed g.nodes (ids g.nodes)
    → has_duplicates (ids g.nodes) ≡ false
    → Ensures
        (λ _. (rank : String → ℕ) × Ranks rank limit g.nodes)
        (DepthError limit)
        (validate_depth limit g)
unfolding validate_depth
validate_depth-Ranks limit g closed unique =
    Ensures-bind' (λ r. IsRanked g.nodes r.1 × All (Below r.1 r.0) (ids g.nodes)) _ (λ e. e ≡ cycle)
      (DepthError limit) _ _ (depths-IsRanked g closed) (λ e same. inl same)
      λ (d, depths) (ranked, below). elim (Bool-cases (ltb limit d)) [
        | inl deep ↦ rw deep (inr (d, refl, ltb→lt limit d deep))
        | inr fits ↦ rw fits (
          rank_in depths,
          Ranks-of_depths g.nodes g.nodes depths limit ranked (node_of_unique g.nodes unique) (
              All-map (λ dep. Below-weaken depths d limit dep (ltb→le limit d fits)) (ids g.nodes)
                below),
        )
      ]

-- The end: every part of `validate` at once.
check_dependencies-IsClosed :
    (known : List String) (nodes : List WorkflowNode)
    → check_dependencies known nodes ≡ ok tt
    → IsClosed nodes known
unfolding check_dependencies
check_dependencies-IsClosed known [] h = tt
check_dependencies-IsClosed known (n ∷ ns) h =
    (ground arith, check_dependencies-IsClosed known ns (ground arith))

downstream-terminal :
    (nodes : List WorkflowNode) (k : String)
    → is_empty (downstream nodes k) ≡ true
    → All (λ n. contains n.depends_on k ≡ false) nodes
unfolding downstream
downstream-terminal [] k h = tt
downstream-terminal (n ∷ ns) k h = (ground arith, downstream-terminal ns k (ground arith))

record PassesNodes (max_nodes : ℕ) (g : WorkflowGraph) : Type 0 where
  some_node : is_empty g.nodes ≡ false
  few : length g.nodes ≤ max_nodes
  unique : has_duplicates (ids g.nodes) ≡ false
  named : g.deliverable_node_id ≢ ""
  known : contains (ids g.nodes) g.deliverable_node_id ≡ true
  deps : check_dependencies (ids g.nodes) g.nodes ≡ ok tt

validate_nodes-Passes :
    (max_nodes : ℕ) (g : WorkflowGraph)
    → validate_nodes max_nodes g ≡ ok tt
    → PassesNodes max_nodes g
unfolding validate_nodes
validate_nodes-Passes max_nodes g h = ground (arith, eq_iff g.deliverable_node_id "")

nonempty : {A : Type 0} (xs : List A) → is_empty xs ≡ false → xs ≢ []
nonempty [] h = cc
nonempty (x ∷ xs) h = λ e. cc

-- A graph that `validate` accepts is runnable: it has a node and at most `max_nodes`, its ids are
-- unique, its dependencies are nodes of it, the deliverable is a node on which nothing depends, and
-- there is a rank of at most `limit` that every dependency raises, so there is no cycle.
pub validate-IsRunnable :
    (max_nodes limit : ℕ) (g : WorkflowGraph)
    → validate max_nodes limit g ≡ ok tt
    → IsRunnable max_nodes limit g
unfolding validate validate_deliverable
validate-IsRunnable max_nodes limit g h =
    let nodes_ok : validate_nodes max_nodes g ≡ ok tt = ground arith in
    let depth_ok : validate_depth limit g ≡ ok tt = ground (arith, nodes_ok) in
    let terminal_ok : is_empty (downstream g.nodes g.deliverable_node_id) ≡ true =
      ground (arith, nodes_ok, depth_ok) in
    let p = validate_nodes-Passes max_nodes g nodes_ok in
    let closed = check_dependencies-IsClosed (ids g.nodes) g.nodes p.deps in
    let (rank, ranks) : (rank : String → ℕ) × Ranks rank limit g.nodes =
      rw depth_ok at (validate_depth-Ranks limit g closed p.unique) in
    record {
      some_node = nonempty g.nodes p.some_node;
      few = p.few;
      unique = p.unique;
      named = p.named;
      known = p.known;
      closed = closed;
      terminal = downstream-terminal g.nodes g.deliverable_node_id terminal_ok;
      rank = rank;
      ranks = ranks;
    }
