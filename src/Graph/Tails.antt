-- ===== src/Graph/Tails.antt =====
-- Built graphs: numbered nodes with a tail of fixed ones behind them.
use text.Mathlib.Text.{starts_with}
use world_class_seo_agent_sy.Prelude.{
  ℕ, suc, ◌≤◌, ◌<◌, ◌≡◌, ◌≢◌, ◌⊎◌, refl, ap, true, false, ◌||◌, String, List, [], ◌∷◌, ◌++◌,
  contains, has_duplicates, subset, subset-of_contains, ◌==◌, if◌then◌else◌, All, All-append, arith,
  inl, inr, length, length-append,
}
use world_class_seo_agent_sy.Graph.Nodes.{WorkflowNode, WorkflowGraph, ids}
use world_class_seo_agent_sy.Graph.Ranks.{IsClosed}
use world_class_seo_agent_sy.Graph.Runnable.{Ranks, IsRunnable}
use world_class_seo_agent_sy.Graph.Build.{numbered}
use world_class_seo_agent_sy.Graph.Numbered.{
  contains-numbered, contains-numbered_append, has_duplicates-numbered, length-numbered,
  numbered_prefixed,
}

-- The rank of a fixed id.
abbrev pub fixed_rank : String → ℕ
fixed_rank k =
    if k == "lead-deliverable" || k == "lead-synthesis"
    then 2
    else if k == "scrummaster-challenge"
    then 3
    else if k == "strategic-synthesis" || k == "strategic-roadmap"
    then 4
    else 5

-- What the fixed nodes of a built graph have to satisfy, behind numbered nodes with the ids `above`.
pub record IsTail (p : String) (above : List String) (tail : List WorkflowNode)
    (deliverable : String) : Type 0 where
  pub some_fixed : 1 ≤ length tail
  pub few : length tail ≤ 4
  pub fresh : All (λ n. starts_with n.id p ≡ false) tail
  pub unique : has_duplicates (ids tail) ≡ false
  pub named : deliverable ≢ ""
  pub outside : starts_with deliverable p ≡ false
  pub known : contains (ids tail) deliverable ≡ true
  pub ranked :
      All
        (λ n.
          (2 ≤ fixed_rank n.id)
          × (fixed_rank n.id ≤ 5)
          × ((n.depends_on ≡ above)
              ⊎ All
                  (λ d.
                    (starts_with d p ≡ false)
                    × (contains (ids tail) d ≡ true)
                    × (fixed_rank d < fixed_rank n.id))
                  n.depends_on))
        tail
  pub terminal :
      All (λ n. (n.depends_on ≡ above) ⊎ (contains n.depends_on deliverable ≡ false)) tail

module _ (p role : String) (agents : List String) (tail : List WorkflowNode)
    (deliverable : String) where
  abbrev top : List WorkflowNode
  top = numbered p role 1 agents

  abbrev rank : String → ℕ
  rank k = if starts_with k p then 1 else fixed_rank k

  Ranks-top : (i : ℕ) (as' : List String) → Ranks rank 5 (numbered p role i as')
  Ranks-top i [] = tt
  Ranks-top i (a ∷ as') =
      let e = (numbered_prefixed p role i (a ∷ as')).0 in (ground (arith, e), Ranks-top (suc i) as')

  IsClosed-top :
      (known : List String) (i : ℕ) (as' : List String) → IsClosed (numbered p role i as') known
  IsClosed-top known i [] = tt
  IsClosed-top known i (a ∷ as') = (refl, IsClosed-top known (suc i) as')

  terminal_top :
      (i : ℕ) (as' : List String)
      → All (λ n. contains n.depends_on deliverable ≡ false) (numbered p role i as')
  terminal_top i [] = tt
  terminal_top i (a ∷ as') = (refl, terminal_top (suc i) as')

  deps_prefixed :
      (r : ℕ) (deps : List String)
      → 2 ≤ r
      → All (λ k. starts_with k p ≡ true) deps
      → All (λ d. rank d < r) deps
  deps_prefixed r [] h f = tt
  deps_prefixed r (d ∷ ds) h (e, f) = (ground (arith, e), deps_prefixed r ds h f)

  deps_fixed :
      (r : ℕ) (deps : List String)
      → All
          (λ d. (starts_with d p ≡ false) × (contains (ids tail) d ≡ true) × (fixed_rank d < r))
          deps
      → All (λ d. rank d < r) deps
  deps_fixed r [] h = tt
  deps_fixed r (d ∷ ds) ((e, m, lt), h) = (rw e lt, deps_fixed r ds h)

  deps_known :
      (deps : List String) (r : ℕ)
      → All
          (λ d. (starts_with d p ≡ false) × (contains (ids tail) d ≡ true) × (fixed_rank d < r))
          deps
      → subset deps (ids (top ++ tail)) ≡ true
  deps_known [] r h = refl
  deps_known (d ∷ ds) r ((e, m, lt), h) =
      ground (arith, m, contains-numbered_append p role 1 agents tail d, deps_known ds r h)

  deps_top : subset (ids top) (ids (top ++ tail)) ≡ true
  deps_top =
      subset-of_contains (ids top) (ids (top ++ tail))
        λ k m. ground (arith, m, contains-numbered_append p role 1 agents tail k)

  module _ (t : IsTail p (ids top) tail deliverable) where
    Ranks-tail :
        (ns : List WorkflowNode)
        → All (λ n. starts_with n.id p ≡ false) ns
        → All
            (λ n.
              (2 ≤ fixed_rank n.id)
              × (fixed_rank n.id ≤ 5)
              × ((n.depends_on ≡ ids top)
                  ⊎ All
                      (λ d.
                        (starts_with d p ≡ false)
                        × (contains (ids tail) d ≡ true)
                        × (fixed_rank d < fixed_rank n.id))
                      n.depends_on))
            ns
        → Ranks rank 5 ns × IsClosed ns (ids (top ++ tail))
    Ranks-tail [] f h = (tt, tt)
    Ranks-tail (n ∷ ns) (e, f) ((low, high, inl same), h) =
        let (rs, cs) = Ranks-tail ns f h in
        (
          (
            (
              rw e (omega arith),
              rw e high,
              rw (e, same)
                  (deps_prefixed (fixed_rank n.id) (ids top) low
                    (numbered_prefixed p role 1 agents)),
            ),
            rs,
          ),
          (rw same deps_top, cs),
        )
    Ranks-tail (n ∷ ns) (e, f) ((low, high, inr deps), h) =
        let (rs, cs) = Ranks-tail ns f h in
        (
          (
            (rw e (omega arith), rw e high, rw e (deps_fixed (fixed_rank n.id) n.depends_on deps)),
            rs,
          ),
          (deps_known n.depends_on (fixed_rank n.id) deps, cs),
        )

    terminal_tail :
        (ns : List WorkflowNode)
        → All (λ n. (n.depends_on ≡ ids top) ⊎ (contains n.depends_on deliverable ≡ false)) ns
        → All (λ n. contains n.depends_on deliverable ≡ false) ns
    terminal_tail [] h = tt
    terminal_tail (n ∷ ns) (inl same, h) =
        (rw same (contains-numbered p role 1 agents deliverable t.outside), terminal_tail ns h)
    terminal_tail (n ∷ ns) (inr e, h) = (e, terminal_tail ns h)

    -- Numbered nodes and such a tail are a runnable graph.
    pub IsTail-IsRunnable :
        (g : WorkflowGraph)
        → g.nodes ≡ top ++ tail
        → g.deliverable_node_id ≡ deliverable
        → length agents ≤ 8
        → IsRunnable 20 5 g
    IsTail-IsRunnable g same_nodes same_id few =
        rw (same_nodes, same_id)
          (record {
            some_node =
                λ e. absurd (omega (arith, ap length e, length-append top tail, t.some_fixed));
            few = omega (arith, length-append top tail, length-numbered p role 1 agents, t.few);
            unique = has_duplicates-numbered p role 1 agents tail (omega arith) t.fresh t.unique;
            named = t.named;
            known =
                ground (arith, t.known, contains-numbered_append p role 1 agents tail deliverable);
            closed =
                All-append _ top tail (IsClosed-top (ids (top ++ tail)) 1 agents)
                  (Ranks-tail tail t.fresh t.ranked).1;
            terminal =
                All-append _ top tail (terminal_top 1 agents) (terminal_tail tail t.terminal);
            rank = rank;
            ranks = All-append _ top tail (Ranks-top 1 agents) (Ranks-tail tail t.fresh t.ranked).0;
          })
