-- ===== src/Graph/Built.antt =====
-- Every graph that the builders return is accepted within the limits of the runner.
use text.Mathlib.Text.{starts_with}
use world_class_seo_agent_sy.Prelude.{
  ◌≤◌, ◌<◌, ◌≡◌, refl, Bool, true, false, String, List, ◌∷◌, ok, contains, has_duplicates, ◌==◌,
  eq_iff, All, All-map, arith, Bool-cases, inl, inr, length, length-take_le, take,
}
use world_class_seo_agent_sy.Routing.Routes.{RouteResult}
use world_class_seo_agent_sy.Graph.Nodes.{WorkflowNode, ids}
use world_class_seo_agent_sy.Graph.Validate.{validate}
use world_class_seo_agent_sy.Graph.Runnable.{IsRunnable}
use world_class_seo_agent_sy.Graph.Complete.{validate_iff}
use world_class_seo_agent_sy.Graph.Build.{
  node, numbered, audit_specialists, build_full_audit_graph, routed_tail, tail_of, eligible_support,
  build_routed_graph, build_workflow_graph,
}
use world_class_seo_agent_sy.Graph.Tails.{fixed_rank, IsTail, IsTail-IsRunnable}

-- The checks of the fixed nodes behind the lead, by evaluation.
abbrev Follows : String → List String → String → WorkflowNode → Type 0
Follows p known deliverable n =
    (2 ≤ fixed_rank n.id)
    × (fixed_rank n.id ≤ 5)
    × All
        (λ d.
          (starts_with d p ≡ false) × (contains known d ≡ true) × (fixed_rank d < fixed_rank n.id))
        n.depends_on
    × (contains n.depends_on deliverable ≡ false)

abbrev Checks : String → String → List WorkflowNode → String → Type 0
Checks p id later deliverable =
    (length later ≤ 3)
    × ((starts_with id p ≡ false) × All (λ n. starts_with n.id p ≡ false) later)
    × (has_duplicates (id ∷ ids later) ≡ false)
    × ((deliverable == "") ≡ false)
    × (starts_with deliverable p ≡ false)
    × (contains (id ∷ ids later) deliverable ≡ true)
    × (2 ≤ fixed_rank id)
    × (fixed_rank id ≤ 5)
    × All (Follows p (id ∷ ids later) deliverable) later

node-IsTail :
    (p id agent role : String) (above : List String) (later : List WorkflowNode)
    (deliverable : String)
    → Checks p id later deliverable
    → IsTail p above (node id agent above role ∷ later) deliverable
node-IsTail p id agent role above later deliverable
      (few, fresh, unique, named, outside, known, low, high, f) =
    record {
      some_fixed = omega arith;
      few = omega arith;
      fresh = fresh;
      unique = unique;
      named = λ e. cc ((eq_iff deliverable "").1 e, named);
      outside = outside;
      known = known;
      ranked = ((low, high, inl refl), All-map (λ n (l, h, d, t). (l, h, inr d)) later f);
      terminal = (inl refl, All-map (λ n (l, h, d, t). inr t) later f);
    }

not_both :
    (lead : String)
    → (lead == "SEO Output Report Agent") ≡ true
    → (lead == "Senior SEO Strategist Agent") ≡ false
not_both lead h = let same = (eq_iff lead "SEO Output Report Agent").0 h in rw same

routed-IsTail :
    (reports strategist supports scrum : Bool) (above : List String) (lead : String)
    → (reports ≡ true → strategist ≡ false)
    → let (nodes, last) = routed_tail reports strategist supports scrum above lead in
      IsTail "support-" above nodes last
routed-IsTail true true supports scrum above lead h = cc (h refl)
routed-IsTail true false true true above lead h = node-IsTail _ _ lead _ above _ _ (ground arith)
routed-IsTail true false true false above lead h = node-IsTail _ _ lead _ above _ _ (ground arith)
routed-IsTail true false false true above lead h = node-IsTail _ _ lead _ above _ _ (ground arith)
routed-IsTail true false false false above lead h = node-IsTail _ _ lead _ above _ _ (ground arith)
routed-IsTail false true supports true above lead h =
    node-IsTail _ _ lead _ above _ _ (ground arith)
routed-IsTail false true supports false above lead h =
    node-IsTail _ _ lead _ above _ _ (ground arith)
routed-IsTail false false true true above lead h = node-IsTail _ _ lead _ above _ _ (ground arith)
routed-IsTail false false true false above lead h = node-IsTail _ _ lead _ above _ _ (ground arith)
routed-IsTail false false false true above lead h = node-IsTail _ _ lead _ above _ _ (ground arith)
routed-IsTail false false false false above lead h = node-IsTail _ _ lead _ above _ _ (ground arith)

routed-IsRunnable : (route : RouteResult) → IsRunnable 20 5 (build_routed_graph route)
unfolding build_routed_graph
routed-IsRunnable route =
    let agents = take 6 (eligible_support route) in
    let above = ids (numbered "support-" "support" 1 agents) in
    IsTail-IsRunnable "support-" "support" agents (tail_of route above).0 (tail_of route above).1
      (routed-IsTail _ _ _ _ above route.lead_agent (not_both route.lead_agent))
      (build_routed_graph route) refl refl
      (omega (arith, length-take_le 6 (eligible_support route)))

audit-IsRunnable : (business_type : String) → IsRunnable 20 5 (build_full_audit_graph business_type)
unfolding build_full_audit_graph
audit-IsRunnable business_type =
    let agents = audit_specialists business_type in
    let above = ids (numbered "specialist-" "specialist" 1 agents) in
    IsTail-IsRunnable "specialist-" "specialist" agents _ "stakeholder-report"
      (node-IsTail "specialist-" "lead-synthesis" _ "lead" above _ "stakeholder-report"
        (ground arith))
      (build_full_audit_graph business_type) refl refl (length-take_le 8 _)

-- Whatever the route and the business type, the graph that is built is accepted with the limits that
-- the runner takes by default: at most 20 nodes, and a depth of at most 5.
pub build-validate :
    (route : RouteResult) (business_type : String)
    → validate 20 5 (build_workflow_graph route business_type) ≡ ok tt
unfolding build_workflow_graph
build-validate route business_type =
    elim (Bool-cases (route.workflow == "workflows/full-audit-workflow.md")) [
      | inl e ↦ rw e (
          (validate_iff 20 5 (build_full_audit_graph business_type)).1
            (audit-IsRunnable business_type))
      | inr e ↦ rw e ((validate_iff 20 5 (build_routed_graph route)).1 (routed-IsRunnable route))
    ]
