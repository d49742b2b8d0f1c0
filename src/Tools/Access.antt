-- ===== src/Tools/Access.antt =====
-- runtime/tools.py: what a request must bring. The environment, `urlsplit` with `parse_qsl`, and
-- the test of an address for being global are parameters.
use Prim.Native.String.{String, ◌++◌ as append}
use world_class_seo_agent_sy.Prelude.{
  ℕ, Bool, true, false, not, ◌&&◌, List, [], ◌∷◌, any, keep, is_empty, contains, join, lookup,
  Option, none, some, ◌==◌, if◌then◌else◌,
}
use world_class_seo_agent_sy.Prelude.Strings.{lower}
use world_class_seo_agent_sy.Tools.Dots.{without_dots}

pub data Timeout : Type 0 where
  default_timeout out_of_range : Timeout
  millis : ℕ → Timeout

-- The value of an argument, if it is a text.
pub record ToolRequest : Type 0 where
  pub tool : String
  pub arguments : List (String × Option String)
  pub required : Bool
  pub timeout : Timeout
  pub budget_approved : Bool

pub record ToolAccessRequirement : Type 0 where
  pub requires_budget_approval : Bool
  pub credential_env : List String
  pub notes : String

abbrev pub credential : String → String → ToolAccessRequirement
credential env notes = record {
  requires_budget_approval = false;
  credential_env = env ∷ [];
  notes = notes;
}

abbrev pub tool_access_requirements : List (String × ToolAccessRequirement)
tool_access_requirements =
    (
      "gsc_live",
      credential "GOOGLE_APPLICATION_CREDENTIALS" "Google Search Console live API access.",
    )
    ∷ (
      "google_search_console",
      credential "GOOGLE_APPLICATION_CREDENTIALS" "Google Search Console live API access.",
    )
    ∷ ("ga4_live", credential "GOOGLE_APPLICATION_CREDENTIALS" "GA4 Data API access.")
    ∷ ("google_analytics_data", credential "GOOGLE_APPLICATION_CREDENTIALS" "GA4 Data API access.")
    ∷ (
      "google_pagespeed_live",
      credential "GOOGLE_PAGESPEED_API_KEY" "PageSpeed Insights live API access.",
    )
    ∷ (
      "pagespeed_live",
      credential "GOOGLE_PAGESPEED_API_KEY" "PageSpeed Insights live API access.",
    )
    ∷ ("google_crux_current", credential "GOOGLE_PAGESPEED_API_KEY" "CrUX live API access.")
    ∷ ("crux_current", credential "GOOGLE_PAGESPEED_API_KEY" "CrUX live API access.")
    ∷ ("google_crux_history", credential "GOOGLE_PAGESPEED_API_KEY" "CrUX history API access.")
    ∷ ("crux_history", credential "GOOGLE_PAGESPEED_API_KEY" "CrUX history API access.")
    ∷ (
      "authority_media",
      record {
        requires_budget_approval = true;
        credential_env = [];
        notes = "Authority/media data can involve paid or quota-limited providers.";
      },
    )
    ∷ []

abbrev pub sensitive_query_keys : List String
sensitive_query_keys =
    "access_token" ∷ "api_key" ∷ "apikey" ∷ "auth" ∷ "authorization" ∷ "client_secret" ∷ "key"
    ∷ "password" ∷ "refresh_token" ∷ "secret" ∷ "token" ∷ []

abbrev pub required_tool_failure_states : List String
required_tool_failure_states = "BLOCKED" ∷ "INVALID" ∷ "MISSING" ∷ []

-- What is read of a URL.
pub record UrlInfo : Type 0 where
  pub scheme : String
  pub has_credentials : Bool
  pub query_keys : List String
  pub hostname : Option String

pub record Surroundings : Type 0 where
  pub environment : String → Option String
  pub urlsplit : String → Option UrlInfo
  pub is_global : String → Option Bool
  pub redact : String → String
  pub format_seconds : ℕ → String

-- A failure before the adapter is called, or instead of its result.
pub record Refusal : Type 0 where
  pub status : String
  pub error_type : String
  pub message : String
  pub evidence_state : String

module _ (s : Surroundings) where
  open s use {environment, urlsplit, is_global}

  unfoldable pub unsafe_host_reason : String → String → Option String
  unsafe_host_reason key host =
      let normalized_host = lower (without_dots host) in
      if contains ("localhost" ∷ "local" ∷ []) normalized_host
      then some (append key " points to a local host")
      else elim (is_global normalized_host) [
        | none ↦ none
        | some true ↦ none
        | some false ↦ some (append key " points to a non-public address")
      ]

  abbrev pub host_reason : String → Option String → Option String
  host_reason key none = none
  host_reason key (some host) = if host == "" then none else unsafe_host_reason key host

  unfoldable pub unsafe_url_reason : String → String → Option String
  unsafe_url_reason key value = elim (urlsplit value) [
    | none ↦ some (append key " contains an invalid URL")
    | some parsed ↦
        if not (parsed.scheme == "") && not (contains ("http" ∷ "https" ∷ []) (lower parsed.scheme))
        then some (append key " must use http or https")
        else if parsed.has_credentials
        then some (append key " must not contain credentials")
        else if any (λ k. contains sensitive_query_keys (lower k)) parsed.query_keys
        then some (append key " contains credential-like query parameters")
        else host_reason key parsed.hostname
  ]

  abbrev pub argument_reason : String → Option String → Option String
  argument_reason key none = none
  argument_reason key (some value) =
      if contains ("url" ∷ "target_url" ∷ "origin" ∷ "site_url" ∷ []) (lower key)
      then unsafe_url_reason key value
      else none

  unfoldable pub first_unsafe_url_argument : List (String × Option String) → Option String
  first_unsafe_url_argument [] = none
  first_unsafe_url_argument (a ∷ arguments) =
      let later = first_unsafe_url_argument arguments in
      elim (argument_reason a.0 a.1) [ some reason ↦ some reason | none ↦ later ]

  abbrev pub is_unset : String → Bool
  is_unset name = elim (environment name) [ none ↦ true | some value ↦ value == "" ]

  abbrev pub fail_state : ToolRequest → String → String
  fail_state request otherwise = if request.required then "BLOCKED" else otherwise

  abbrev pub url_refusal : ToolRequest → Option String → Option Refusal
  url_refusal request none = none
  url_refusal request (some reason) = some (record {
    status = "FAILED";
    error_type = "UnsafeURL";
    message = reason;
    evidence_state = fail_state request "INVALID";
  })

  abbrev pub credential_refusal : ToolRequest → List String → Option Refusal
  credential_refusal request missing =
      if is_empty missing
      then url_refusal request (first_unsafe_url_argument request.arguments)
      else some (record {
        status = "NOT_CONFIGURED";
        error_type = "MissingCredential";
        message = append "Tool " (
            append request.tool
              (append " is missing credential environment variables: " (join ", " missing)));
        evidence_state = fail_state request "MISSING";
      })

  abbrev pub requirement_refusal : ToolRequest → Option ToolAccessRequirement → Option Refusal
  requirement_refusal request none =
      url_refusal request (first_unsafe_url_argument request.arguments)
  requirement_refusal request (some requirement) =
      if requirement.requires_budget_approval && not request.budget_approved
      then some (record {
        status = "FAILED";
        error_type = "BudgetApprovalRequired";
        message =
            append "Tool " (
              append request.tool
                (append " requires explicit budget approval. " requirement.notes));
        evidence_state = "BLOCKED";
      })
      else credential_refusal request (keep is_unset requirement.credential_env)

  unfoldable pub preflight_access : ToolRequest → Option Refusal
  preflight_access request =
      requirement_refusal request (lookup request.tool tool_access_requirements)
