-- ===== src/Graph/Order.antt =====
-- The levels of a graph: a rearrangement of its nodes, each behind its dependencies, and no more of
-- them than its depth.
use mathlib.Core.List.Perm
use mathlib.Core.List.{Perm, flatten}
use world_class_seo_agent_sy.Prelude.{
  ℕ, zero, suc, ◌-◌, ◌≤◌, ◌≡◌, ◌⊎◌, refl, sym, ◌∙◌, true, false, not, String, List, [], ◌∷◌, ◌++◌,
  Result, ok, err, Ensures, Ensures-bind, contains, subset, has_duplicates, append-nil,
  append_assoc, eq_iff, All, All-map, arith, Bool-cases, inl, inr, length, is_empty, keep, sort_by,
}
use world_class_seo_agent_sy.Prelude.Sorting.{sort_by-perm, keep-split-perm, length-keep_split}
use world_class_seo_agent_sy.Graph.Nodes.{WorkflowNode, WorkflowGraph, GraphError, ids}
use world_class_seo_agent_sy.Graph.Picking.{node_id, without-ready, keep_ready, All-sort_by}
use world_class_seo_agent_sy.Graph.Levels.{put_node, by_id, is_ready, rounds, levels}
use world_class_seo_agent_sy.Graph.Validate.{validate}
use world_class_seo_agent_sy.Graph.Accepts.{validate-IsRunnable}
use world_class_seo_agent_sy.Graph.Rounds.{
  contains-ids_append, empty_nil, length-of_some, IsLeft, next-IsLeft, not_stuck,
}

abbrev pub IsOrdered : List String → List (List WorkflowNode) → Type 0
IsOrdered done [] = Unit
IsOrdered done (level ∷ later) =
    All (λ n. subset n.depends_on done ≡ true) level × IsOrdered (done ++ ids level) later

module _ (rank : String → ℕ) (limit : ℕ) where
  abbrev Leveled : ℕ → List String → List WorkflowNode → List (List WorkflowNode) → Type 0
  Leveled k done left ls = IsOrdered done ls × Perm (flatten ls) left × (length ls ≤ limit - k)

  rounds-Leveled :
      (fuel k : ℕ) (done : List String) (left : List WorkflowNode)
      → length left ≤ fuel
      → IsLeft rank limit k done left
      → Ensures (Leveled k done left) (λ e. ⊥) (rounds fuel done left)
  unfolding rounds flatten
  rounds-Leveled zero k done [] le h = (tt, Perm.refl [], omega arith)
  rounds-Leveled (suc fuel) k done [] le h = (tt, Perm.refl [], omega arith)
  rounds-Leveled zero k done (n ∷ ns) le h = absurd (omega arith)
  rounds-Leveled (suc fuel) k done (n ∷ ns) le h =
      let left = n ∷ ns in
      let picked = keep (is_ready done) left in
      let later = keep (λ m. not (is_ready done m)) left in
      let sorted = sort_by node_id picked in
      elim (Bool-cases (is_empty picked)) [
        | inl none ↦
            let stuck : left ≡ [] =
              not_stuck rank limit limit k done left (omega arith) h (empty_nil picked none) in
            cc stuck
        | inr one ↦
            rw (one, without-ready (is_ready done) left h.unique)
              (Ensures-bind (Leveled (suc k) (done ++ ids sorted) later) (Leveled k done left)
                (λ e. ⊥) (rounds fuel (done ++ ids sorted) later) _
                (rounds-Leveled fuel (suc k) (done ++ ids sorted) later
                  (omega (arith, length-keep_split (is_ready done) left, length-of_some picked one))
                  (next-IsLeft rank limit k done left h))
                λ ls (ordered, rest, few). (
                  (
                    All-sort_by (λ m. subset m.depends_on done ≡ true) picked
                        (keep_ready done left),
                    ordered,
                  ),
                  Perm.trans (Perm.append (sort_by-perm node_id picked) rest)
                      (keep-split-perm (is_ready done) left),
                  omega (arith, h.ranked.0.0, h.ranked.0.1),
                ))
      ]

put_node-of_fresh :
    (built : List WorkflowNode) (n : WorkflowNode) (ns : List WorkflowNode)
    → has_duplicates (ids (built ++ n ∷ ns)) ≡ false
    → put_node n built ≡ built ++ n ∷ []
put_node-of_fresh [] n ns h = refl
put_node-of_fresh (m ∷ ms) n ns h = ground (
  arith,
  put_node-of_fresh ms n ns,
  contains-ids_append ms (n ∷ ns) m.id,
  eq_iff n.id m.id,
  eq_iff m.id n.id,
)

by_id-of_fresh :
    (built nodes : List WorkflowNode)
    → has_duplicates (ids (built ++ nodes)) ≡ false
    → by_id built nodes ≡ built ++ nodes
unfolding by_id
by_id-of_fresh built [] h = sym (append-nil built)
by_id-of_fresh built (n ∷ ns) h =
    rw (put_node-of_fresh built n ns h)
      (by_id-of_fresh (built ++ n ∷ []) ns (rw append_assoc h) ∙ append_assoc built (n ∷ []) ns)

start-supplied :
    (known deps : List String)
    → subset deps known ≡ true
    → All (λ d. (contains [] d ≡ true) ⊎ (contains known d ≡ true)) deps
start-supplied known [] h = tt
start-supplied known (d ∷ ds) h = (inr (ground arith), start-supplied known ds (ground arith))

of_Ensures :
    {A : Type 0} (P : A → Type 0) (m : Result GraphError A)
    → Ensures P (λ e. ⊥) m
    → (a : A) × (m ≡ ok a) × P a
of_Ensures P (ok a) h = (a, refl, h)
of_Ensures P (err e) h = absurd h

-- The levels of an accepted graph exist: they hold its nodes, each once, every node stands behind all
-- of its dependencies, and there are at most as many levels as the depth limit.
pub levels-IsOrdered :
    (max_nodes limit : ℕ) (g : WorkflowGraph)
    → validate max_nodes limit g ≡ ok tt
    → (ls : List (List WorkflowNode)) × (levels g ≡ ok ls)
      × IsOrdered [] ls
      × Perm (flatten ls) g.nodes
      × (length ls ≤ limit)
unfolding levels
levels-IsOrdered max_nodes limit g h =
    let r = validate-IsRunnable max_nodes limit g h in
    let (ls, e, leveled) =
      of_Ensures (Leveled r.rank limit 0 [] g.nodes) (rounds (length g.nodes) [] g.nodes) (
        rounds-Leveled r.rank limit (length g.nodes) 0 [] g.nodes (omega arith) (record {
          unique = r.unique;
          ranked = r.ranks;
          supplied = All-map (λ n. start-supplied (ids g.nodes) n.depends_on) g.nodes r.closed;
        })) in
    (ls, rw (by_id-of_fresh [] g.nodes r.unique) e, leveled.0, leveled.1, omega (arith, leveled.2))
