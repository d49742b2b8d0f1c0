-- ===== src/Graph/Complete.antt =====
-- `validate` accepts every runnable graph.
use world_class_seo_agent_sy.Prelude.{
  ℕ, zero, suc, ◌+◌, ◌≤◌, ◌<◌, ◌≡◌, ◌≢◌, ◌↔◌, refl, ap, subst, true, false, String, some, List, [],
  ◌∷◌, Result, ok, err, ◌>>=◌, Ensures, Ensures-bind, contains, subset, subset_refl, lookup, insert,
  lookup-insert, ◌==◌, eq_iff, All, arith, Bool-cases, Option-cases, inl, inr, length, is_empty,
  ltb,
}
use world_class_seo_agent_sy.Graph.Nodes.{WorkflowNode, WorkflowGraph, GraphError, ids}
use world_class_seo_agent_sy.Graph.Validate.{
  Depths, max_depth, node_of, depth_of, validate_nodes, validate_depth, validate_deliverable,
  validate, check_dependencies, downstream,
}
use world_class_seo_agent_sy.Graph.Ranks.{
  IsClosed, find_closed, find_known, unvisited, unvisited_nil, unvisited_lt,
}
use world_class_seo_agent_sy.Graph.Runnable.{Ranks, IsRunnable}
use world_class_seo_agent_sy.Graph.Accepts.{validate-IsRunnable}

rank_of_found :
    (rank : String → ℕ) (limit : ℕ) (nodes : List WorkflowNode) (k : String) (n : WorkflowNode)
    → Ranks rank limit nodes
    → node_of nodes k ≡ some n
    → (1 ≤ rank k) × All (λ dep. rank dep < rank k) n.depends_on
rank_of_found rank limit [] k n r h = cc
rank_of_found rank limit (x ∷ xs) k n ((low, high, deps), r) h = elim (Bool-cases (x.id == k)) [
  | inl e ↦
      let same : x ≡ n = ground (arith, e) in
      let id : x.id ≡ k = (eq_iff x.id k).0 e in
      (rw id at low, subst (λ m. All (λ dep. rank dep < rank k) m.depends_on) same (rw id at deps))
  | inr e ↦ rank_of_found rank limit xs k n r (ground (arith, e))
]

module _ (nodes : List WorkflowNode) (rank : String → ℕ) (limit : ℕ)
    (ranks : Ranks rank limit nodes) (closed : IsClosed nodes (ids nodes)) where
  -- No entry is above the rank of its key.
  abbrev IsBounded : Depths → Type 0
  IsBounded depths = (k : String) (v : ℕ) → lookup k depths ≡ some v → v ≤ rank k

  abbrev Above : List String → ℕ → Type 0
  Above visiting r = (x : String) → contains visiting x ≡ true → r < rank x

  abbrev Succeeds : List String → (String → Depths → Result GraphError (ℕ × Depths)) → Type 0
  Succeeds visiting depth =
      (k : String) (depths : Depths)
      → contains (ids nodes) k ≡ true
      → Above visiting (rank k)
      → IsBounded depths
      → Ensures (λ r. (r.0 ≤ rank k) × IsBounded r.1) (λ e. ⊥) (depth k depths)

  max_depth-IsBounded :
      (visiting : List String) (depth : String → Depths → Result GraphError (ℕ × Depths))
      (bound : ℕ)
      → Succeeds visiting depth
      → 0 < bound
      → (deps : List String) (depths : Depths) → subset deps (ids nodes) ≡ true
      → All (λ dep. (rank dep < bound) × Above visiting (rank dep)) deps
      → IsBounded depths
      → Ensures (λ r. (r.0 < bound) × IsBounded r.1) (λ e. ⊥) (max_depth depth deps depths)
  unfolding max_depth
  max_depth-IsBounded visiting depth bound finds pos [] depths s a b = (omega arith, b)
  max_depth-IsBounded visiting depth bound finds pos (dep ∷ deps) depths s ((le, above), a) b =
      Ensures-bind (λ r. (r.0 ≤ rank dep) × IsBounded r.1) _ _ (depth dep depths) _
        (finds dep depths (ground arith) above b)
        λ (v, d1) (v_le, b1).
          Ensures-bind (λ r. (r.0 < bound) × IsBounded r.1) _ _ (max_depth depth deps d1) _
            (max_depth-IsBounded visiting depth bound finds pos deps d1 (ground arith) a b1)
            λ (w, d2) (w_le, b2). (omega arith, b2)

  Above-deps :
      (visiting : List String) (k : String) (deps : List String)
      → Above visiting (rank k)
      → All (λ dep. rank dep < rank k) deps
      → All (λ dep. (rank dep < rank k) × Above (k ∷ visiting) (rank dep)) deps
  Above-deps visiting k [] above h = tt
  Above-deps visiting k (dep ∷ deps) above (lt, h) = (
    (
      lt,
      λ x m. elim (Bool-cases (k == x)) [
        | inl e ↦ rw (← ((eq_iff k x).0 e)) lt
        | inr e ↦ let seen : rank k < rank x = above x (ground (arith, e)) in omega arith
      ],
    ),
    Above-deps visiting k deps above h,
  )

  IsBounded-insert :
      (k : String) (m : ℕ) (depths : Depths)
      → m ≤ rank k
      → IsBounded depths
      → IsBounded (insert k m depths)
  IsBounded-insert k m depths le b j v h = elim (Bool-cases (k == j)) [
    | inl e ↦
        let same : k ≡ j = (eq_iff k j).0 e in
        let v_eq : m ≡ v = ground (arith, e, lookup-insert k j m depths) in rw (← same, ← v_eq) le
    | inr e ↦ b j v (ground (arith, e, lookup-insert k j m depths))
  ]

  depth_of-Succeeds :
      (fuel : ℕ) (visiting : List String)
      → unvisited (ids nodes) visiting < fuel
      → Succeeds visiting (depth_of nodes fuel visiting)
  unfolding depth_of
  depth_of-Succeeds zero visiting enough k depths known above b = absurd (omega arith)
  depth_of-Succeeds (suc fuel) visiting enough k depths known above b =
      elim (Option-cases (lookup k depths)) [
        | inr (v, h) ↦ rw h (b k v h, b)
        | inl new ↦ rw new (elim (Bool-cases (contains visiting k)) [
          | inl seen ↦ absurd (omega (arith, above k seen))
          | inr out ↦
              let (n, found) = find_known nodes k known in
              let (low, deps) = rank_of_found rank limit nodes k n ranks found in
              rw (out, found)
                (Ensures-bind (λ r. (r.0 < rank k) × IsBounded r.1) _ _
                  (max_depth (depth_of nodes fuel (k ∷ visiting)) n.depends_on depths) _
                  (max_depth-IsBounded (k ∷ visiting) (depth_of nodes fuel (k ∷ visiting)) (rank k)
                    (depth_of-Succeeds fuel (k ∷ visiting)
                      (omega (arith, unvisited_lt (ids nodes) visiting k known out)))
                    low n.depends_on depths (find_closed nodes (ids nodes) k n closed found).0
                    (Above-deps visiting k n.depends_on above deps) b)
                  λ (m, d1) (m_lt, b1).
                    (omega arith, IsBounded-insert k (1 + m) d1 (omega arith) b1))
        ])
      ]

  ids_below :
      (ns : List WorkflowNode)
      → Ranks rank limit ns
      → All (λ dep. (rank dep < suc limit) × Above [] (rank dep)) (ids ns)
  ids_below [] h = tt
  ids_below (n ∷ ns) ((low, high, deps), h) = ((omega arith, λ x m. cc), ids_below ns h)

  -- The largest depth is within the limit.
  depth-le_limit :
      Ensures
        (λ r. (r.0 < suc limit) × IsBounded r.1)
        (λ e. ⊥)
        (max_depth (depth_of nodes (suc (length nodes)) []) (ids nodes) [])
  depth-le_limit =
      max_depth-IsBounded [] (depth_of nodes (suc (length nodes)) []) (suc limit)
        (depth_of-Succeeds (suc (length nodes)) [] (unvisited_nil nodes)) (omega arith) (ids nodes)
        [] (subset_refl (ids nodes)) (ids_below nodes ranks) (λ k v h. cc)

Succeeds-bind :
    {A : Type 0} (P : A → Type 0) (m : Result GraphError A) (f : A → Result GraphError (Unit {0}))
    → Ensures P (λ e. ⊥) m
    → ((a : A) → P a → f a ≡ ok tt)
    → (m >>= f) ≡ ok tt
Succeeds-bind P (ok a) f h k = k a h
Succeeds-bind P (err e) f h k = absurd h

-- A ranked graph passes the depth check, whatever the order of its nodes.
pub ranked-validate_depth :
    (g : WorkflowGraph) (rank : String → ℕ) (limit : ℕ)
    → Ranks rank limit g.nodes
    → IsClosed g.nodes (ids g.nodes)
    → validate_depth limit g ≡ ok tt
unfolding validate_depth
ranked-validate_depth g rank limit ranks closed =
    Succeeds-bind (λ r. (r.0 < suc limit) × IsBounded g.nodes rank limit ranks closed r.1) _ _
      (depth-le_limit g.nodes rank limit ranks closed)
      λ (d, depths) (lt, b). let fits : ltb limit d ≡ false = ground arith in rw fits

not_own :
    (rank : String → ℕ) (k : String) (deps : List String)
    → All (λ dep. rank dep < rank k) deps
    → contains deps k ≡ false
not_own rank k [] h = refl
not_own rank k (dep ∷ deps) (lt, h) = elim (Bool-cases (dep == k)) [
  | inl e ↦ let same : rank dep ≡ rank k = ap rank ((eq_iff dep k).0 e) in absurd (omega arith)
  | inr e ↦ ground (arith, e, not_own rank k deps h)
]

terminal-downstream :
    (nodes : List WorkflowNode) (k : String)
    → All (λ n. contains n.depends_on k ≡ false) nodes
    → downstream nodes k ≡ []
unfolding downstream
terminal-downstream [] k h = refl
terminal-downstream (n ∷ ns) k (h, t) = ground (arith, terminal-downstream ns k t)

IsClosed-check_dependencies :
    (known : List String) (nodes : List WorkflowNode) (rank : String → ℕ) (limit : ℕ)
    → IsClosed nodes known
    → Ranks rank limit nodes
    → check_dependencies known nodes ≡ ok tt
unfolding check_dependencies
IsClosed-check_dependencies known [] rank limit c r = refl
IsClosed-check_dependencies known (n ∷ ns) rank limit (c, cs) ((low, high, deps), r) = ground (
  arith,
  IsClosed-check_dependencies known ns rank limit cs r,
  not_own rank n.id n.depends_on deps,
)

is_empty-of_some : {A : Type 0} (xs : List A) → xs ≢ [] → is_empty xs ≡ false
is_empty-of_some [] h = absurd (h refl)
is_empty-of_some (x ∷ xs) h = refl

IsRunnable-validate :
    (max_nodes limit : ℕ) (g : WorkflowGraph)
    → IsRunnable max_nodes limit g
    → validate max_nodes limit g ≡ ok tt
unfolding validate validate_nodes validate_deliverable
IsRunnable-validate max_nodes limit g r = ground (
  arith,
  is_empty-of_some g.nodes r.some_node,
  r.few,
  r.unique,
  r.known,
  r.named,
  eq_iff g.deliverable_node_id "",
  IsClosed-check_dependencies (ids g.nodes) g.nodes r.rank limit r.closed r.ranks,
  ranked-validate_depth g r.rank limit r.ranks r.closed,
  terminal-downstream g.nodes g.deliverable_node_id r.terminal,
)

-- A graph is accepted exactly when it is runnable within the limits: the search by `depth`, with its
-- dicts and its recursion, decides whether the rank exists.
pub validate_iff :
    (max_nodes limit : ℕ) (g : WorkflowGraph)
    → (validate max_nodes limit g ≡ ok tt) ↔ IsRunnable max_nodes limit g
validate_iff max_nodes limit g =
    (validate-IsRunnable max_nodes limit g, IsRunnable-validate max_nodes limit g)
