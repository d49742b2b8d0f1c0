-- ===== src/Graph/Build.antt =====
-- The builders of runtime/workflow_graph.py: from `_slug` to `_build_routed_graph`.
use Prim.Native.String.{◌++◌ as append}
use world_class_seo_agent_sy.Prelude.{
  ℕ, suc, Bool, true, false, not, ◌||◌, String, none, List, [], ◌∷◌, ◌++◌, map, any, keep, take,
  drop, contains, ◌==◌, if◌then◌else◌,
}
use world_class_seo_agent_sy.Prelude.Numerals.{padded}
use world_class_seo_agent_sy.Prelude.Strings.{lower, replace, occurs}
use world_class_seo_agent_sy.Routing.Routes.{RouteResult}
use world_class_seo_agent_sy.Graph.Nodes.{WorkflowNode, WorkflowGraph, CapacityExclusion, ids}

unfoldable pub slug : String → String
unfolding lower replace
slug agent = replace "/" "-" (replace " " "-" (replace "&" "and" (replace " / " "-" (lower agent))))

unfoldable pub dedupe_from : List String → List String → List String
dedupe_from seen [] = []
dedupe_from seen (value ∷ values) =
    let again = dedupe_from seen values in
    let first = value ∷ dedupe_from (value ∷ seen) values in
    if contains seen value then again else first

abbrev pub dedupe : List String → List String
dedupe values = dedupe_from [] values

-- `agents.append(agent)` under `if any(token in value for token in tokens)`
abbrev when_any : List String → String → String → List String
when_any tokens value agent = if any (λ token. occurs token value) tokens then agent ∷ [] else []

unfoldable pub vertical_agents : String → List String
unfolding lower occurs
vertical_agents business_type =
    let value = lower business_type in
    when_any ("ecommerce" ∷ "e-commerce" ∷ "commerce" ∷ "retail" ∷ []) value "SEO E-commerce Agent"
    ++ when_any ("local" ∷ "location" ∷ "service-area" ∷ []) value "Local SEO Agent"
    ++ when_any ("international" ∷ "multilingual" ∷ "global" ∷ []) value
        "International & Multilingual SEO Agent"

abbrev pub exclusions : List String → String → List CapacityExclusion
exclusions agents reason =
    map (λ agent. record { agent = agent; reason = reason; status = "NOT_EXECUTED_CAPACITY" })
      agents

unfoldable pub eligible_support : RouteResult → List String
eligible_support route =
    let reserved =
      route.lead_agent ∷ "SEO Scrummaster Agent" ∷ "Senior SEO Strategist Agent"
      ∷ "SEO Output Report Agent" ∷ [] in
    dedupe (keep (λ agent. not (contains reserved agent)) route.supporting_agents)

-- A node with the defaults of the class.
abbrev pub node : String → String → List String → String → WorkflowNode
node id agent depends_on role = record {
  id = id;
  agent = agent;
  depends_on = depends_on;
  required = true;
  role = role;
  condition = none;
}

-- f"{prefix}{index:02d}-{_slug(agent)}"
abbrev pub numbered_id : String → ℕ → String → String
numbered_id prefix index agent = append prefix (append (padded 2 index) (append "-" (slug agent)))

-- The list of nodes over `enumerate(agents, start=index)`.
abbrev pub numbered : String → String → ℕ → List String → List WorkflowNode
numbered prefix role index [] = []
numbered prefix role index (agent ∷ agents) =
    node (numbered_id prefix index agent) agent [] role ∷ numbered prefix role (suc index) agents

abbrev fixed_specialists : List String
fixed_specialists =
    "SEO Technical Agent" ∷ "SEO Copywriter/Content Agent" ∷ "SEO Information Architecture Agent"
    ∷ "SEO Accessibility Agent" ∷ "GEO / AIO Optimization Agent" ∷ "Negative SEO & Security Agent"
    ∷ []

-- `selected_vertical or [...]`
abbrev or_default_slots : List String → List String
or_default_slots [] = "SEO CRO Agent" ∷ "Competitive Intelligence Agent" ∷ []
or_default_slots (agent ∷ agents) = agent ∷ agents

abbrev pub audit_specialists : String → List String
audit_specialists business_type =
    take 8 (dedupe (fixed_specialists ++ or_default_slots (take 2 (vertical_agents business_type))))

unfoldable pub build_full_audit_graph : String → WorkflowGraph
build_full_audit_graph business_type =
    let specialists = numbered "specialist-" "specialist" 1 (audit_specialists business_type) in
    record {
      id = "full-audit-v2";
      nodes =
          specialists
          ++ node "lead-synthesis" "SEO Full Audit/Analyst Agent" (ids specialists) "lead"
            ∷ node "scrummaster-challenge" "SEO Scrummaster Agent" ("lead-synthesis" ∷ [])
                "governance"
            ∷ node "strategic-roadmap" "Senior SEO Strategist Agent" ("scrummaster-challenge" ∷ [])
                "strategy"
            ∷ node "stakeholder-report" "SEO Output Report Agent" ("strategic-roadmap" ∷ [])
                "report"
            ∷ [];
      deliverable_node_id = "stakeholder-report";
      capacity_exclusions =
          exclusions (drop 2 (vertical_agents business_type))
            "vertical specialist capacity is bounded to two agents";
      declared_control_handoffs = [];
    }

-- The nodes behind the support nodes, and the id on which the next one depends, after each `if`.
abbrev pub after_scrum : Bool → List WorkflowNode × String → List WorkflowNode × String
after_scrum true (nodes, last) = (
  nodes
      ++ node "scrummaster-challenge" "SEO Scrummaster Agent" ("lead-deliverable" ∷ []) "governance"
        ∷ [],
  "scrummaster-challenge",
)
after_scrum false (nodes, last) = (nodes, last)

abbrev pub after_strategy : Bool → Bool → List WorkflowNode × String → List WorkflowNode × String
after_strategy true supports (nodes, last) = (nodes, "lead-deliverable")
after_strategy false true (nodes, last) = (
  nodes ++ node "strategic-synthesis" "Senior SEO Strategist Agent" (last ∷ []) "strategy" ∷ [],
  "strategic-synthesis",
)
after_strategy false false (nodes, last) = (nodes, last)

abbrev pub after_report : Bool → List WorkflowNode × String → List WorkflowNode × String
after_report true (nodes, last) = (nodes, last)
after_report false (nodes, last) = (
  nodes
      ++ record (node "stakeholder-report" "SEO Output Report Agent" (last ∷ []) "report") {
        required = false;
      }
        ∷ [],
  "stakeholder-report",
)

-- From the lead node on: whether the lead is the report agent or the strategist, and whether the
-- strategist supports and the scrummaster is due.
abbrev pub routed_tail :
    Bool → Bool → Bool → Bool → List String → String → List WorkflowNode × String
routed_tail reports strategist supports scrum support_ids lead_agent = after_report reports (
    after_strategy strategist supports (
      after_scrum scrum
        (node "lead-deliverable" lead_agent support_ids "lead" ∷ [], "lead-deliverable")))

abbrev pub tail_of : RouteResult → List String → List WorkflowNode × String
tail_of route support_ids =
    routed_tail (route.lead_agent == "SEO Output Report Agent")
      (route.lead_agent == "Senior SEO Strategist Agent")
      (contains route.supporting_agents "Senior SEO Strategist Agent")
      (contains route.supporting_agents "SEO Scrummaster Agent" || route.confidence == "Low")
      support_ids route.lead_agent

unfoldable pub build_routed_graph : RouteResult → WorkflowGraph
build_routed_graph route =
    let support = numbered "support-" "support" 1 (take 6 (eligible_support route)) in
    record {
      id = append "routed-" (append (slug route.lead_agent) "-v2");
      nodes = support ++ (tail_of route (ids support)).0;
      deliverable_node_id = (tail_of route (ids support)).1;
      capacity_exclusions =
          exclusions (drop 6 (eligible_support route))
            "support specialist capacity is bounded to six agents";
      declared_control_handoffs = [];
    }

unfoldable pub build_workflow_graph : RouteResult → String → WorkflowGraph
unfolding build_full_audit_graph build_routed_graph
build_workflow_graph route business_type =
    if route.workflow == "workflows/full-audit-workflow.md"
    then build_full_audit_graph business_type
    else build_routed_graph route
