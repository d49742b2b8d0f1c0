-- ===== src/Agents/Specialist.antt =====
-- runtime/specialist_decision.py. Reading the integrity registry (`json.loads` and the rows of it)
-- and SHA-256 are parameters. A value of a decision that is missing or of another type is `none`.
use Prim.Native.String.{◌++◌ as append}
use world_class_seo_agent_sy.Prelude.{
  ℕ, Bool, true, false, not, ◌&&◌, ◌||◌, eqb, String, List, [], ◌∷◌, ◌++◌, map, keep, any, is_empty,
  contains, has_duplicates, subset, join, lookup, Option, none, some, Result, ok, ◌>>◌, raise_if,
  ◌==◌, if◌then◌else◌,
}
use world_class_seo_agent_sy.Prelude.Strings.{occurs, blank}

abbrev pub specialist_agents : List String
specialist_agents =
    "Competitive Intelligence Agent" ∷ "International & Multilingual SEO Agent" ∷ "Local SEO Agent"
    ∷ "Negative SEO & Security Agent" ∷ "Predictive SEO Trend Agent" ∷ "SEO Accessibility Agent"
    ∷ "SEO Compliance & Legal Agent" ∷ "Visual & Video Search Agent" ∷ []

abbrev pub decision_to_execution : List (String × String)
decision_to_execution =
    ("READY", "COMPLETE")
    ∷ ("PARTIAL", "PARTIAL")
    ∷ ("BLOCKED", "BLOCKED")
    ∷ ("ABSTAIN", "PARTIAL")
    ∷ ("ESCALATE", "BLOCKED")
    ∷ []

abbrev pub integrity_path : String
integrity_path = "governance/specialist-playbook-integrity.json"

abbrev pub standard_path : String
standard_path = "skills/specialist-decision-standard.md"

abbrev pub playbook_path : String
playbook_path = "skills/specialist-depth-playbooks.md"

abbrev pub semantic_rule_markers : List (String × List String)
semantic_rule_markers =
    (
      "Negative SEO & Security Agent",
      "never submit a disavow automatically" ∷ "ABSTAIN` from attacker identity or causation" ∷ [],
    )
    ∷ (
      "SEO Accessibility Agent",
      "Full-conformance claims are outside agent authority"
          ∷ "never claim rendered behavior or WCAG conformance" ∷ [],
    )
    ∷ (
      "International & Multilingual SEO Agent",
      "ABSTAIN` from translation quality without market expertise"
          ∷ "Escalate sitewide URL migrations" ∷ [],
    )
    ∷ (
      "Local SEO Agent",
      "protect hidden addresses" ∷ "ABSTAIN` from rank-cause and market-share claims" ∷ [],
    )
    ∷ (
      "Competitive Intelligence Agent",
      "avoid reactive copying" ∷ "ABSTAIN` from causal attribution and competitor intent" ∷ [],
    )
    ∷ (
      "Predictive SEO Trend Agent",
      "at least two independent signal classes"
          ∷ "ABSTAIN` from point forecasts and durability claims" ∷ [],
    )
    ∷ (
      "Visual & Video Search Agent",
      "Search eligibility is not indexing or ranking proof"
          ∷ "do not generate supposedly accurate replacements from inference" ∷ [],
    )
    ∷ (
      "SEO Compliance & Legal Agent",
      "never makes final legal determinations"
          ∷ "ABSTAIN` from legal advice or compliance certification" ∷ [],
    )
    ∷ []

-- A row of the context: its path and its content.
pub record ContextRow : Type 0 where
  pub path : String
  pub content : String

-- What is read of the integrity registry for an agent.
pub record Integrity : Type 0 where
  pub schema_version : String
  pub hash_algorithm : String
  pub standard_path : String
  pub standard_version : ℕ
  pub standard_sha256 : String
  pub playbook_version : ℕ
  pub playbook_sha256 : String

pub data IntegrityError : Type 0 where
  incomplete_context invalid_registry invalid_identity standard_version standard_digest :
      IntegrityError
  playbook_version playbook_digest : IntegrityError

pub data ArtifactError : Type 0 where
  not_specialist missing_rules invalid_references : ArtifactError
  not_intact : List IntegrityError → ArtifactError

abbrev pub error_if {ℓ} : {A : Type ℓ} → Bool → A → List A
error_if true e = e ∷ []
error_if false e = []

abbrev pub context_text : List ContextRow → String
context_text rows = join "\n" (map (λ r. r.content) rows)

abbrev pub single : List ContextRow → Option String
single [] = none
single (r ∷ []) = some r.content
single (r ∷ s ∷ rows) = none

abbrev pub context_by_path : List ContextRow → String → Option String
context_by_path rows path = single (keep (λ r. r.path == path) rows)

module _ (read_registry : String → String → Option Integrity) (sha256 : String → String) where
  abbrev pub integrity_of : Integrity → String → String → List IntegrityError
  integrity_of row standard playbook =
      error_if
        (not (row.schema_version == "1.0.0" && row.hash_algorithm == "sha256-normalized-utf8"))
        invalid_identity
      ++ (error_if (not (row.standard_path == standard_path) || not (eqb row.standard_version 1))
            IntegrityError.standard_version
          ++ (error_if (not (row.standard_sha256 == sha256 standard)) standard_digest
              ++ (error_if (not (eqb row.playbook_version 1)) IntegrityError.playbook_version
                  ++ error_if (not (row.playbook_sha256 == sha256 playbook)) playbook_digest)))

  abbrev pub read_integrity :
      String → Option String → Option String → Option String → List IntegrityError
  read_integrity agent (some raw) (some standard) (some playbook) = elim (read_registry raw agent) [
    | none ↦ invalid_registry ∷ []
    | some row ↦ integrity_of row standard playbook
  ]
  read_integrity agent none standard playbook = incomplete_context ∷ []
  read_integrity agent (some raw) none playbook = incomplete_context ∷ []
  read_integrity agent (some raw) (some standard) none = incomplete_context ∷ []

  unfoldable pub runtime_integrity_errors : String → List ContextRow → List IntegrityError
  runtime_integrity_errors agent rows =
      read_integrity agent (context_by_path rows integrity_path)
        (context_by_path rows standard_path)
        (context_by_path rows (append playbook_path (append "#" agent)))

abbrev pub markers : String → List String
markers agent = elim (lookup agent semantic_rule_markers) [ none ↦ [] | some ms ↦ ms ]

unfoldable pub missing_semantic_rules : String → String → List String
missing_semantic_rules agent context = keep (λ marker. not (occurs marker context)) (markers agent)

pub record Signals : Type 0 where
  pub required_evidence_available : Bool
  pub material_harm : Bool
  pub evidence_ambiguous : Bool
  pub coverage_limited : Bool

pub record Artifact : Type 0 where
  pub decision : String
  pub mapped_execution_state : Option String
  pub rationale_code : String
  pub evidence_refs : List String
  pub human_action_required : Bool

-- The state and the rationale.
unfoldable pub decide_state : Signals → String × String
decide_state s =
    if s.material_harm
    then ("ESCALATE", "MATERIAL_HARM_REQUIRES_HUMAN_OWNER")
    else if not s.required_evidence_available
    then ("BLOCKED", "REQUIRED_EVIDENCE_UNAVAILABLE")
    else if s.evidence_ambiguous
    then ("ABSTAIN", "EVIDENCE_CANNOT_DISTINGUISH_EXPLANATIONS")
    else if s.coverage_limited
    then ("PARTIAL", "COVERAGE_LIMITS_DECISION")
    else ("READY", "SUFFICIENT_BOUNDED_EVIDENCE")

abbrev pub artifact_of : String × String → List String → Artifact
artifact_of decided refs = record {
  decision = decided.0;
  mapped_execution_state = lookup decided.0 decision_to_execution;
  rationale_code = decided.1;
  evidence_refs = refs;
  human_action_required = decided.0 == "ESCALATE";
}

module _ (read_registry : String → String → Option Integrity) (sha256 : String → String) where
  unfoldable pub decision_artifact :
      String → List ContextRow → Signals → List String → Result ArtifactError Artifact
  decision_artifact agent rows signals refs =
      let integrity = runtime_integrity_errors read_registry sha256 agent rows in
      do
        raise_if (not (contains specialist_agents agent)) not_specialist
        raise_if (not (is_empty integrity)) (not_intact integrity)
        raise_if (not (is_empty (missing_semantic_rules agent (context_text rows)))) missing_rules
        raise_if (has_duplicates refs || any blank refs) invalid_references
        ok (artifact_of (decide_state signals) refs)

-- The decision that an output holds.
pub record SpecialistDecision : Type 0 where
  pub decision : Option String
  pub mapped_execution_state : Option String
  pub evidence_refs : Option (List String)
  pub human_action_required : Option Bool

pub record SpecialistOutput : Type 0 where
  pub agent : Option String
  pub execution_state : Option String
  pub evidence : List (Option String)
  pub specialist_decision : Option SpecialistDecision

pub data DecisionError : Type 0 where
  unknown_state wrong_mapping state_conflict human_action refs_not_a_list unknown_evidence :
      DecisionError
  no_evidence_refs no_decision : DecisionError

abbrev pub is_text : Option String → String → Bool
is_text none b = false
is_text (some a) b = a == b

abbrev pub is_flag : Option Bool → Bool → Bool
is_flag none b = false
is_flag (some true) b = b
is_flag (some false) b = not b

abbrev pub expected_state : Option String → Option String
expected_state none = none
expected_state (some decision) = lookup decision decision_to_execution

abbrev pub mapping_of :
    Option String → Option String → Option String → Option String → List DecisionError
mapping_of none decision mapped actual = unknown_state ∷ []
mapping_of (some expected) decision mapped actual =
    error_if (not (is_text mapped expected)) wrong_mapping
    ++ error_if
        (not (is_text actual expected)
          && not (is_text actual "SYNTHETIC" && is_text decision "PARTIAL"))
        state_conflict

unfoldable pub mapping_errors : SpecialistOutput → SpecialistDecision → List DecisionError
mapping_errors out d =
    mapping_of (expected_state d.decision) d.decision d.mapped_execution_state out.execution_state
    ++ error_if (not (is_flag d.human_action_required (is_text d.decision "ESCALATE"))) human_action

-- The ids of the evidence that has one.
abbrev pub evidence_ids : List (Option String) → List String
evidence_ids [] = []
evidence_ids (none ∷ items) = evidence_ids items
evidence_ids (some id ∷ items) =
    let rest = evidence_ids items in if id == "" then rest else id ∷ rest

abbrev pub reference_errors :
    Option (List String) → Option String → List String → List DecisionError
reference_errors none decision ids = refs_not_a_list ∷ []
reference_errors (some refs) decision ids =
    error_if (not (subset refs ids)) unknown_evidence
    ++ error_if (not (is_text decision "BLOCKED") && is_empty refs) no_evidence_refs

unfoldable pub evidence_errors : SpecialistOutput → SpecialistDecision → List DecisionError
evidence_errors out d = reference_errors d.evidence_refs d.decision (evidence_ids out.evidence)

abbrev pub is_specialist : Option String → Bool
is_specialist none = false
is_specialist (some agent) = contains specialist_agents agent

abbrev pub decision_errors : SpecialistOutput → Option SpecialistDecision → List DecisionError
decision_errors out none = no_decision ∷ []
decision_errors out (some d) = mapping_errors out d ++ evidence_errors out d

unfoldable pub specialist_output_errors : SpecialistOutput → List DecisionError
unfolding mapping_errors evidence_errors
specialist_output_errors out =
    let errors = decision_errors out out.specialist_decision in
    if is_specialist out.agent then errors else []
