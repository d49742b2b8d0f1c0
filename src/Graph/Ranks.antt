-- ===== src/Graph/Ranks.antt =====
-- What a successful depth computation has found: a rank for every node, above those of its
-- dependencies.
use world_class_seo_agent_sy.Prelude.{
  ℕ, zero, suc, ◌+◌, subst, not, keep, length, subset, Ensures, Ensures-bind, ◌≤◌, ◌<◌, ◌≡◌, true,
  false, String, none, some, List, [], ◌∷◌, Result, contains, contains-head, lookup, insert,
  lookup-insert, ◌==◌, eq_iff, eq_refl, All, All-map, arith, Bool-cases, Option-cases, inl, inr,
}
use world_class_seo_agent_sy.Graph.Nodes.{WorkflowNode, GraphError, cycle, ids}
use world_class_seo_agent_sy.Graph.Validate.{Depths, max_depth, node_of, visit, depth_of}

abbrev pub Below : Depths → ℕ → String → Type 0
Below depths bound dep = (w : ℕ) × (lookup dep depths ≡ some w) × (w ≤ bound)

abbrev Extends : Depths → Depths → Type 0
Extends depths depths' = (k : String) (v : ℕ) → lookup k depths ≡ some v → lookup k depths' ≡ some v

Below-Extends :
    (depths depths' : Depths) (bound : ℕ) (dep : String)
    → Extends depths depths'
    → Below depths bound dep
    → Below depths' bound dep
Below-Extends depths depths' bound dep e (w, h, le) = (w, e dep w h, le)

pub Below-weaken :
    (depths : Depths) (low high : ℕ) (dep : String)
    → low ≤ high
    → Below depths low dep
    → Below depths high dep
Below-weaken depths low high dep h (w, e, le) = (w, e, omega arith)

abbrev pub IsClosed : List WorkflowNode → List String → Type 0
IsClosed nodes known = All (λ n. subset n.depends_on known ≡ true) nodes

pub find_closed :
    (nodes : List WorkflowNode) (known : List String) (k : String) (n : WorkflowNode)
    → IsClosed nodes known
    → node_of nodes k ≡ some n
    → (subset n.depends_on known ≡ true) × (n.id ≡ k)
find_closed [] known k n c h = cc
find_closed (x ∷ xs) known k n c h = elim (Bool-cases (x.id == k)) [
  | inl e ↦
      let same : x ≡ n = ground (arith, e) in
      subst (λ y. (subset y.depends_on known ≡ true) × (y.id ≡ k)) same (c.0, (eq_iff x.id k).0 e)
  | inr e ↦ find_closed xs known k n c.1 (ground (arith, e))
]

pub find_known :
    (nodes : List WorkflowNode) (k : String)
    → contains (ids nodes) k ≡ true
    → (n : WorkflowNode) × (node_of nodes k ≡ some n)
find_known [] k h = cc
find_known (x ∷ xs) k h = elim (Bool-cases (x.id == k)) [
  | inl e ↦ (x, rw e)
  | inr e ↦ let (n, found) = find_known xs k (ground (arith, e)) in (n, rw e found)
]

-- How many ids are not yet visited.
abbrev pub unvisited : List String → List String → ℕ
unvisited known visiting = length (keep (λ i. not (contains visiting i)) known)

pub unvisited_nil : (nodes : List WorkflowNode) → unvisited (ids nodes) [] < suc (length nodes)
unvisited_nil [] = omega arith
unvisited_nil (n ∷ ns) = omega (arith, unvisited_nil ns)

unvisited_le :
    (known visiting : List String) (k : String)
    → unvisited known (k ∷ visiting) ≤ unvisited known visiting
unvisited_le [] visiting k = omega arith
unvisited_le (x ∷ xs) visiting k = ground (arith, unvisited_le xs visiting k)

pub unvisited_lt :
    (known visiting : List String) (k : String)
    → contains known k ≡ true
    → contains visiting k ≡ false
    → unvisited known (k ∷ visiting) < unvisited known visiting
unvisited_lt [] visiting k m h = cc
unvisited_lt (x ∷ xs) visiting k m h = elim (Bool-cases (x == k)) [
  | inl e ↦
      let same = (eq_iff x k).0 e in ground (arith, same, e, eq_refl k, unvisited_le xs visiting k)
  | inr e ↦ ground (arith, e, eq_iff k x, eq_iff x k, unvisited_lt xs visiting k)
]

Extends-insert :
    (k : String) (m : ℕ) (depths : Depths)
    → lookup k depths ≡ none
    → Extends depths (insert k m depths)
Extends-insert k m depths new j v h = ground (arith, lookup-insert k j m depths, eq_iff k j)

module _ (nodes : List WorkflowNode) where
  -- Every entry is the depth of a node whose dependencies have smaller depths.
  abbrev pub IsRanked : Depths → Type 0
  IsRanked depths =
      (k : String) (v : ℕ)
      → lookup k depths ≡ some v
      → (n : WorkflowNode) × (node_of nodes k ≡ some n)
        × (p : ℕ) × (v ≡ suc p)
        × All (Below depths p) n.depends_on

  -- What a call has done: it keeps the entries, and adds none for a visited node.
  pub record IsDone (visiting : List String) (depths depths' : Depths) : Type 0 where
    pub ranked : IsRanked depths'
    pub extends : Extends depths depths'
    pub fresh :
        (k : String) → contains visiting k ≡ true → lookup k depths ≡ none → lookup k depths' ≡ none

  abbrev pub Finds : List String → (String → Depths → Result GraphError (ℕ × Depths)) → Type 0
  Finds visiting depth =
      (k : String) (depths : Depths)
      → contains (ids nodes) k ≡ true
      → IsRanked depths
      → Ensures (λ r. IsDone visiting depths r.1 × (lookup k r.1 ≡ some r.0)) (λ e. e ≡ cycle)
          (depth k depths)

  pub max_depth-IsDone :
      (visiting : List String) (depth : String → Depths → Result GraphError (ℕ × Depths))
      → Finds visiting depth
      → (deps : List String) (depths : Depths) → subset deps (ids nodes) ≡ true
      → IsRanked depths
      → Ensures
          (λ r. IsDone visiting depths r.1 × All (Below r.1 r.0) deps)
          (λ e. e ≡ cycle)
          (max_depth depth deps depths)
  unfolding max_depth
  max_depth-IsDone visiting depth finds [] depths s r =
      (record { ranked = r; extends = λ k v h. h; fresh = λ k m h. h }, tt)
  max_depth-IsDone visiting depth finds (dep ∷ deps) depths s r =
      Ensures-bind _ _ _ (depth dep depths) _ (finds dep depths (ground arith) r) λ one done.
        Ensures-bind _ _ _ (max_depth depth deps one.1) _
          (max_depth-IsDone visiting depth finds deps one.1 (ground arith) done.0.ranked)
          λ rest later. (
            record {
              ranked = later.0.ranked;
              extends = λ k v h. later.0.extends k v (done.0.extends k v h);
              fresh = λ k m h. later.0.fresh k m (done.0.fresh k m h);
            },
            (
              (one.0, later.0.extends dep one.0 done.1, omega arith),
              All-map (λ d. Below-weaken rest.1 rest.0 _ d (omega arith)) deps later.1,
            ),
          )

  -- The entry of a node is added above the entries of its dependencies.
  IsRanked-insert :
      (k : String) (m : ℕ) (n : WorkflowNode) (depths : Depths)
      → node_of nodes k ≡ some n
      → lookup k depths ≡ none
      → All (Below depths m) n.depends_on
      → IsRanked depths
      → IsRanked (insert k (1 + m) depths)
  IsRanked-insert k m n depths found new below r j v h = elim (Bool-cases (k == j)) [
    | inl e ↦
        let same = (eq_iff k j).0 e in
        (
          n,
          rw (← same) found,
          m,
          ground (arith, e, lookup-insert k j (1 + m) depths),
          All-map (λ d. Below-Extends depths _ m d (Extends-insert k (1 + m) depths new))
              n.depends_on below,
        )
    | inr e ↦
        let (n', found', p, eq, below') =
          r j v (ground (arith, e, lookup-insert k j (1 + m) depths)) in
        (
          n',
          found',
          p,
          eq,
          All-map (λ d. Below-Extends depths _ p d (Extends-insert k (1 + m) depths new))
              n'.depends_on below',
        )
  ]

  visit-IsDone :
      (visiting : List String) (k : String)
      (depth : String → Depths → Result GraphError (ℕ × Depths)) (n : WorkflowNode)
      (depths : Depths)
      → Finds (k ∷ visiting) depth
      → node_of nodes k ≡ some n
      → subset n.depends_on (ids nodes) ≡ true
      → contains visiting k ≡ false
      → lookup k depths ≡ none
      → IsRanked depths
      → Ensures
          (λ r. IsDone visiting depths r.1 × (lookup k r.1 ≡ some r.0))
          (λ e. e ≡ cycle)
          (visit depth k (some n) depths)
  visit-IsDone visiting k depth n depths finds found closed out new r =
      Ensures-bind _ _ _ (max_depth depth n.depends_on depths) _
        (max_depth-IsDone (k ∷ visiting) depth finds n.depends_on depths closed r)
        λ (m, depths') (done, below).
          let new' = done.fresh k (contains-head k visiting) new in
          (
            record {
              ranked = IsRanked-insert k m n depths' found new' below done.ranked;
              extends = λ j v h. Extends-insert k (1 + m) depths' new' j v (done.extends j v h);
              fresh = λ j seen h. ground (
                arith,
                lookup-insert k j (1 + m) depths',
                eq_iff k j,
                done.fresh j (ground (arith, seen)) h,
              );
            },
            rw (lookup-insert, eq_refl),
          )

  pub depth_of-Finds :
      IsClosed nodes (ids nodes)
      → (fuel : ℕ) (visiting : List String) → unvisited (ids nodes) visiting < fuel
      → Finds visiting (depth_of nodes fuel visiting)
  unfolding depth_of
  depth_of-Finds closed zero visiting enough k depths known r = absurd (omega arith)
  depth_of-Finds closed (suc fuel) visiting enough k depths known r =
      elim (Option-cases (lookup k depths)) [
        | inr (v, h) ↦ rw h (record { ranked = r; extends = λ j w e. e; fresh = λ j m e. e }, h)
        | inl new ↦ rw new (elim (Bool-cases (contains visiting k)) [
          | inl seen ↦ rw seen
          | inr out ↦
              let (n, found) = find_known nodes k known in
              rw (out, found)
                (visit-IsDone visiting k (depth_of nodes fuel (k ∷ visiting)) n depths
                  (depth_of-Finds closed fuel (k ∷ visiting)
                    (omega (arith, unvisited_lt (ids nodes) visiting k known out)))
                  found (find_closed nodes (ids nodes) k n closed found).0 out new r)
        ])
      ]
