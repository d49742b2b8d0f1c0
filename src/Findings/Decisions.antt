-- ===== src/Findings/Decisions.antt =====
-- `build_decisions`, with the fields that differ between decisions.
use Prim.Native.String.{◌++◌ as append}
use world_class_seo_agent_sy.Prelude.{
  Bool, true, false, ◌&&◌, ◌||◌, String, Option, none, some, List, [], ◌∷◌, ◌++◌, map, keep, any,
  is_empty, has_duplicates, sort_by, Result, ok, err, ◌>>=◌, ◌==◌, if◌then◌else◌,
}
use world_class_seo_agent_sy.Prelude.Strings.{blank}
use world_class_seo_agent_sy.Findings.Registry.{
  FindingRecord, RecordState, accepted, record_key_text,
}
use world_class_seo_agent_sy.Findings.Conflicts.{Conflict}

pub data DecisionKind : Type 0 where
  revise approve defer : DecisionKind

pub record Decision : Type 0 where
  pub decision_id : String
  pub proposal : String
  pub decision : DecisionKind
  pub evidence : List String

pub data EvidenceError : Type 0 where
  no_references blank_or_repeated : EvidenceError

-- `_decision_evidence`, for references without blanks at their ends.
unfoldable pub decision_evidence : List String → Result EvidenceError (List String)
decision_evidence values =
    if is_empty values
    then err no_references
    else if any blank values || has_duplicates values
    then err blank_or_repeated
    else ok (sort_by (λ v. v) values)

unfoldable pub conflict_decision : Conflict → Result EvidenceError Decision
unfolding decision_evidence
conflict_decision c = decision_evidence c.record_keys >>= λ evidence. ok (record {
  decision_id = append "decision-" c.conflict_id;
  proposal = append "Resolve conflict for " c.affected_scope;
  decision = revise;
  evidence = evidence;
})

abbrev pub conflict_decisions : List Conflict → Result EvidenceError (List Decision)
conflict_decisions [] = ok []
conflict_decisions (c ∷ cs) =
    conflict_decision c >>= λ d. conflict_decisions cs >>= λ ds. ok (d ∷ ds)

abbrev pub is_accepted_record : RecordState → Bool
is_accepted_record accepted = true
is_accepted_record _ = false

abbrev pub is_high : Option String → Bool
is_high none = false
is_high (some severity) = severity == "Critical" || severity == "High"

abbrev pub is_critical : FindingRecord → Bool
is_critical r = is_high r.finding.severity && is_accepted_record r.state

abbrev pub high_risk_decision : List FindingRecord → Result EvidenceError (List Decision)
high_risk_decision [] = ok []
high_risk_decision (r ∷ rs) =
    decision_evidence (map (λ x. record_key_text x.key) (r ∷ rs)) >>= λ evidence. ok (
      record {
        decision_id = "decision-high-risk-review";
        proposal = "Accept high-risk findings for roadmap planning, not automatic implementation.";
        decision = approve;
        evidence = evidence;
      }
      ∷ [])

unfoldable pub build_decisions :
    List Conflict → List FindingRecord → Result EvidenceError (List Decision)
unfolding conflict_decision
build_decisions found findings = conflict_decisions found >>= λ decisions.
    high_risk_decision (keep is_critical findings) >>= λ more. ok (decisions ++ more)
