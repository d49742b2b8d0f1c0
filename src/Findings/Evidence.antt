-- ===== src/Findings/Evidence.antt =====
-- The state of the evidence of a finding: `_reference_state`, `_evidence_state`. The values of an
-- output are those that its schema admits.
use Prim.Native.String.{◌++◌ as append}
use world_class_seo_agent_sy.Prelude.{
  ℕ, ◌||◌, String, Option, List, [], ◌∷◌, ◌++◌, map, keep, is_empty, length, leb, eqb, contains,
  has_duplicates, sort_by, if◌then◌else◌,
}
use world_class_seo_agent_sy.Prelude.Strings.{blank, upper}
use world_class_seo_agent_sy.Graph.Build.{dedupe}
use world_class_seo_agent_sy.Handoff.Resolve.{is_text}

pub data EvidenceState : Type 0 where
  valid missing stale duplicate contradictory : EvidenceState

-- An item of the "evidence" of an output; "state" with its default, "CURRENT".
pub record EvidenceEntry : Type 0 where
  pub id : Option String
  pub source : Option String
  pub state : String

abbrev pub state_order : EvidenceState → ℕ
state_order valid = 0
state_order duplicate = 1
state_order stale = 2
state_order missing = 3
state_order contradictory = 4

abbrev pub worse : EvidenceState → EvidenceState → EvidenceState
worse left right = if leb (state_order right) (state_order left) then left else right

-- `_evidence_inventory(output).get(reference, [])`: an item counts once under its id and its source.
unfoldable pub observed : List EvidenceEntry → String → List String
observed entries reference =
    if blank reference
    then []
    else map (λ e. upper e.state)
        (keep (λ e. is_text e.id reference || is_text e.source reference) entries)

-- The state by the statuses that were seen.
abbrev pub reference_base : List String → EvidenceState
reference_base statuses = if eqb (length statuses) 1 then valid else duplicate

abbrev pub reference_issues : String → List String → List String
reference_issues reference statuses =
    if eqb (length statuses) 1
    then []
    else append "duplicate evidence inventory key: " reference ∷ []

unfoldable pub reference_state : String → List String → EvidenceState × List String
reference_state reference statuses =
    let base = reference_base statuses in
    let issues = reference_issues reference statuses in
    if is_empty statuses
    then (missing, append "unknown evidence reference: " reference ∷ [])
    else if contains statuses "CONTRADICTORY"
    then (contradictory, issues ++ append "contradictory evidence: " reference ∷ [])
    else if contains statuses "MISSING" || contains statuses "INVALID"
    then (worse base missing, issues ++ append "unavailable evidence: " reference ∷ [])
    else if contains statuses "STALE"
    then (worse base stale, issues ++ append "stale evidence: " reference ∷ [])
    else (base, issues)

-- The loop over the references, from the state so far.
unfoldable pub references_state :
    List EvidenceEntry → List String → EvidenceState → EvidenceState × List String
unfolding reference_state observed
references_state entries [] state = (state, [])
references_state entries (reference ∷ references) state =
    let found = reference_state reference (observed entries reference) in
    let rest = references_state entries references (worse state found.0) in
    (rest.0, found.1 ++ rest.1)

-- `sorted(set(xs))`
abbrev pub sorted_set : List String → List String
sorted_set xs = sort_by (λ x. x) (dedupe xs)

unfoldable pub evidence_state : List EvidenceEntry → List String → EvidenceState × List String
unfolding references_state
evidence_state entries references =
    let repeated = has_duplicates references in
    let found =
      references_state entries (sorted_set references) (if repeated then duplicate else valid) in
    if is_empty references then (missing, "finding has no evidence references" ∷ []) else (
      found.0,
      sorted_set
          ((if repeated then "finding repeats an evidence reference" ∷ [] else []) ++ found.1),
    )
