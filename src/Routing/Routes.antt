-- ===== src/Routing/Routes.antt =====
-- runtime/routing.py: `RouteResult`, and `RequestRouter` with its table `ROUTES`.
use world_class_seo_agent_sy.Prelude.{
  String, Option, none, some, List, [], ◌∷◌, any, lookup, if◌then◌else◌,
}
use world_class_seo_agent_sy.Prelude.Strings.{lower, occurs}

pub record RouteResult : Type 0 where
  pub lead_agent : String
  pub supporting_agents : List String
  pub workflow : String
  pub required_evidence : List String
  pub escalation : String
  pub confidence : String

pub record RouteRow : Type 0 where
  pub keywords : List String
  pub lead_agent : String
  pub workflow : String

abbrev pub row : List String → String → String → RouteRow
row keywords lead_agent workflow = record {
  keywords = keywords;
  lead_agent = lead_agent;
  workflow = workflow;
}

-- `ROUTES`
unfoldable pub routes : List RouteRow
routes =
    row ("plain-language" ∷ "stakeholder" ∷ "client report" ∷ "non-technical" ∷ "summary" ∷ [])
      "SEO Output Report Agent" "workflows/request-routing.md"
    ∷ row
        ("diagnostic" ∷ "tool stack" ∷ "dashboard" ∷ "reporting setup" ∷ "seo tools" ∷ "grading"
          ∷ [])
        "SEO Diagnostic Infrastructure Agent" "workflows/request-routing.md"
    ∷ row ("engineer" ∷ "implementation" ∷ "code fix" ∷ "regression test" ∷ "deploy" ∷ [])
        "Senior SEO Engineer Agent" "workflows/technical-deployment-workflow.md"
    ∷ row
        ("technical" ∷ "crawl" ∷ "index" ∷ "schema" ∷ "canonical" ∷ "robots" ∷ "sitemap"
          ∷ "core web vitals" ∷ [])
        "SEO Technical Agent" "workflows/technical-deployment-workflow.md"
    ∷ row
        ("information architecture" ∷ "taxonomy" ∷ "navigation" ∷ "url structure" ∷ "internal link"
          ∷ [])
        "SEO Information Architecture Agent" "workflows/request-routing.md"
    ∷ row ("accessibility" ∷ "wcag" ∷ "alt text" ∷ "screen reader" ∷ "keyboard" ∷ [])
        "SEO Accessibility Agent" "workflows/request-routing.md"
    ∷ row ("cro" ∷ "conversion" ∷ "cta" ∷ "landing page" ∷ "a/b test" ∷ []) "SEO CRO Agent"
        "workflows/request-routing.md"
    ∷ row ("content" ∷ "brief" ∷ "copy" ∷ "metadata" ∷ "refresh" ∷ "article" ∷ [])
        "SEO Copywriter/Content Agent" "workflows/content-production-workflow.md"
    ∷ row ("local" ∷ "gbp" ∷ "nap" ∷ "citation" ∷ "reviews" ∷ []) "Local SEO Agent"
        "workflows/request-routing.md"
    ∷ row
        ("ecommerce" ∷ "e-commerce" ∷ "product page" ∷ "product schema" ∷ "shopping" ∷ "merchant"
          ∷ "marketplace" ∷ "faceted navigation" ∷ [])
        "SEO E-commerce Agent" "workflows/request-routing.md"
    ∷ row ("international" ∷ "hreflang" ∷ "multilingual" ∷ "locale" ∷ [])
        "International & Multilingual SEO Agent" "workflows/request-routing.md"
    ∷ row ("image" ∷ "video" ∷ "youtube" ∷ "transcript" ∷ "visual search" ∷ [])
        "Visual & Video Search Agent" "workflows/request-routing.md"
    ∷ row ("voice" ∷ "spoken" ∷ "conversational" ∷ "faq" ∷ "q&a" ∷ [])
        "Voice Search & Conversational Agent" "workflows/request-routing.md"
    ∷ row ("geo" ∷ "aio" ∷ "ai overview" ∷ "ai search" ∷ "citation" ∷ [])
        "GEO / AIO Optimization Agent" "workflows/request-routing.md"
    ∷ row ("compliance" ∷ "legal" ∷ "disclosure" ∷ "claims" ∷ "privacy" ∷ "regulated" ∷ [])
        "SEO Compliance & Legal Agent" "workflows/request-routing.md"
    ∷ row ("security" ∷ "negative seo" ∷ "malware" ∷ "hacked" ∷ "toxic" ∷ [])
        "Negative SEO & Security Agent" "workflows/monitoring-workflow.md"
    ∷ row ("digital pr" ∷ "outreach" ∷ "unlinked mention" ∷ "linkable asset" ∷ "backlink gap" ∷ [])
        "Digital PR & Programmatic Link Outreach Agent" "workflows/request-routing.md"
    ∷ row ("trend" ∷ "forecast" ∷ "seasonality" ∷ "emerging topic" ∷ [])
        "Predictive SEO Trend Agent" "workflows/request-routing.md"
    ∷ row ("competitor" ∷ "competitive" ∷ "serp movement" ∷ "content gap" ∷ [])
        "Competitive Intelligence Agent" "workflows/request-routing.md"
    ∷ row ("experiment" ∷ "hypothesis" ∷ "research design" ∷ "seo test" ∷ [])
        "SEO Research and Development Agent" "workflows/request-routing.md"
    ∷ row ("knowledge graph" ∷ "entity" ∷ "sameas" ∷ "brand serp" ∷ [])
        "SEO Knowledge Graph Sync Agent" "workflows/request-routing.md"
    ∷ row ("algorithm" ∷ "knowledge sync" ∷ "rule update" ∷ "official source" ∷ [])
        "AI Principal SEO Scientist" "workflows/continuous-learning-workflow.md"
    ∷ row ("strategy" ∷ "roadmap" ∷ "plan" ∷ "prioritize" ∷ []) "Senior SEO Strategist Agent"
        "workflows/request-routing.md"
    ∷ row ("scrum" ∷ "sprint" ∷ "debate" ∷ "decision" ∷ []) "SEO Scrummaster Agent"
        "workflows/request-routing.md"
    ∷ row
        ("single page audit" ∷ "single-page audit" ∷ "audit this page" ∷ "page audit"
          ∷ "single url audit" ∷ [])
        "SEO Full Audit/Analyst Agent" "workflows/single-page-audit-workflow.md"
    ∷ row ("audit" ∷ "analyze" ∷ "health" ∷ "score" ∷ []) "SEO Full Audit/Analyst Agent"
        "workflows/full-audit-workflow.md"
    ∷ []

-- The table `support` of `_result`.
unfoldable pub support_table : List (String × List String)
support_table =
    (
      "SEO Full Audit/Analyst Agent",
      "SEO Technical Agent" ∷ "SEO Copywriter/Content Agent" ∷ "SEO Diagnostic Infrastructure Agent"
          ∷ "SEO Output Report Agent" ∷ [],
    )
    ∷ (
      "SEO Diagnostic Infrastructure Agent",
      "SEO Full Audit/Analyst Agent" ∷ "SEO Output Report Agent" ∷ "SEO Technical Agent" ∷ [],
    )
    ∷ (
      "SEO Output Report Agent",
      "SEO Full Audit/Analyst Agent" ∷ "SEO Scrummaster Agent" ∷ "Senior SEO Strategist Agent" ∷ [],
    )
    ∷ ("SEO Technical Agent", "Senior SEO Engineer Agent" ∷ "SEO Scrummaster Agent" ∷ [])
    ∷ (
      "SEO Copywriter/Content Agent",
      "SEO Compliance & Legal Agent" ∷ "GEO / AIO Optimization Agent" ∷ "SEO CRO Agent" ∷ [],
    )
    ∷ ("Senior SEO Engineer Agent", "SEO Technical Agent" ∷ "SEO Scrummaster Agent" ∷ [])
    ∷ (
      "SEO Information Architecture Agent",
      "SEO Technical Agent" ∷ "SEO Copywriter/Content Agent" ∷ [],
    )
    ∷ ("SEO Accessibility Agent", "Senior SEO Engineer Agent" ∷ "SEO CRO Agent" ∷ [])
    ∷ ("SEO CRO Agent", "SEO Copywriter/Content Agent" ∷ "Senior SEO Strategist Agent" ∷ [])
    ∷ ("Local SEO Agent", "SEO Copywriter/Content Agent" ∷ "SEO Knowledge Graph Sync Agent" ∷ [])
    ∷ (
      "SEO E-commerce Agent",
      "SEO Technical Agent" ∷ "SEO Copywriter/Content Agent" ∷ "SEO Compliance & Legal Agent" ∷ [],
    )
    ∷ (
      "International & Multilingual SEO Agent",
      "SEO Technical Agent" ∷ "SEO Copywriter/Content Agent" ∷ [],
    )
    ∷ ("Visual & Video Search Agent", "SEO Technical Agent" ∷ "SEO Copywriter/Content Agent" ∷ [])
    ∷ (
      "Voice Search & Conversational Agent",
      "SEO Copywriter/Content Agent" ∷ "GEO / AIO Optimization Agent" ∷ [],
    )
    ∷ (
      "GEO / AIO Optimization Agent",
      "SEO Knowledge Graph Sync Agent" ∷ "SEO Copywriter/Content Agent" ∷ [],
    )
    ∷ (
      "SEO Compliance & Legal Agent",
      "SEO Copywriter/Content Agent" ∷ "SEO Scrummaster Agent" ∷ [],
    )
    ∷ ("Negative SEO & Security Agent", "SEO Technical Agent" ∷ "Senior SEO Engineer Agent" ∷ [])
    ∷ (
      "Digital PR & Programmatic Link Outreach Agent",
      "Competitive Intelligence Agent" ∷ "SEO Compliance & Legal Agent" ∷ [],
    )
    ∷ (
      "Predictive SEO Trend Agent",
      "SEO Copywriter/Content Agent" ∷ "Senior SEO Strategist Agent" ∷ [],
    )
    ∷ (
      "Competitive Intelligence Agent",
      "SEO Full Audit/Analyst Agent" ∷ "Digital PR & Programmatic Link Outreach Agent" ∷ [],
    )
    ∷ (
      "SEO Research and Development Agent",
      "SEO Full Audit/Analyst Agent" ∷ "SEO Scrummaster Agent" ∷ [],
    )
    ∷ (
      "SEO Knowledge Graph Sync Agent",
      "GEO / AIO Optimization Agent" ∷ "SEO Technical Agent" ∷ [],
    )
    ∷ (
      "AI Principal SEO Scientist",
      "SEO Scrummaster Agent" ∷ "SEO Research and Development Agent" ∷ [],
    )
    ∷ ("Senior SEO Strategist Agent", "SEO Full Audit/Analyst Agent" ∷ "SEO Scrummaster Agent" ∷ [])
    ∷ []

-- `support.get(lead_agent, ["SEO Scrummaster Agent"])`
abbrev pub or_scrummaster : Option (List String) → List String
or_scrummaster none = "SEO Scrummaster Agent" ∷ []
or_scrummaster (some agents) = agents

unfoldable pub route_result : String → String → String → RouteResult
unfolding support_table
route_result lead_agent workflow confidence = record {
  lead_agent = lead_agent;
  supporting_agents = or_scrummaster (lookup lead_agent support_table);
  workflow = workflow;
  required_evidence =
      "business_context" ∷ "target_domain_or_urls" ∷ "available_first_party_data"
      ∷ "technical_or_content_artifacts" ∷ [];
  escalation = "Escalate to SEO Scrummaster Agent for high-risk changes or missing evidence.";
  confidence = confidence;
}

-- The loop over the table: the first row with a keyword in the request.
unfoldable pub route_from : List RouteRow → String → RouteResult
route_from [] normalized = route_result "SEO Scrummaster Agent" "workflows/request-routing.md" "Low"
route_from (r ∷ rows) normalized =
    if any (λ keyword. occurs keyword normalized) r.keywords
    then route_result r.lead_agent r.workflow "Medium"
    else route_from rows normalized

unfoldable pub route : String → RouteResult
unfolding route_from lower
route request = route_from routes (lower request)
