-- ===== src/Findings/Registry.antt =====
-- `FindingRegistry.add_output`, `records` and `accept_all_without_conflict`. A dict from keys to
-- records is the list of its records, which carry their keys.
use Prim.Native.String.{◌++◌ as append}
use world_class_seo_agent_sy.Prelude.{
  ℕ, Bool, true, false, not, ◌&&◌, ◌||◌, String, Option, none, some, List, [], ◌∷◌, ◌++◌, map, keep,
  any, is_empty, ltb, take, contains, join, sort_by, ◌==◌, if◌then◌else◌,
}
use world_class_seo_agent_sy.Prelude.Strings.{blank, lower}
use world_class_seo_agent_sy.Prelude.Words.{words}
use world_class_seo_agent_sy.Findings.Evidence.{
  EvidenceState, valid, duplicate, contradictory, EvidenceEntry, worse, sorted_set,
  evidence_state as evidence_of,
}

-- The value of "action_polarity".
pub data PolarityValue : Type 0 where
  no_polarity not_object wrong_keys not_strings : PolarityValue
  pair : (target polarity : String) → PolarityValue

pub record Finding : Type 0 where
  pub id : Option String
  pub affected_scope : String
  pub finding : String
  pub severity : Option String
  pub evidence_refs : List String
  pub action_polarity : PolarityValue

-- An output, with the default of its "agent", "Unknown Agent".
pub record Output : Type 0 where
  pub agent : String
  pub findings : List Finding
  pub evidence : List EvidenceEntry

pub record Key : Type 0 where
  pub scope : String
  pub identity : String

abbrev pub key_eq : Key → Key → Bool
key_eq k l = k.scope == l.scope && k.identity == l.identity

-- `_norm`
abbrev pub norm : String → String
norm value = join " " (words (lower value))

abbrev pub root_terms : List String
root_terms =
    "canonical" ∷ "noindex" ∷ "robots" ∷ "redirect" ∷ "schema" ∷ "hreflang" ∷ "indexation"
    ∷ "rendering" ∷ "duplicate" ∷ "content" ∷ "claim" ∷ "consent" ∷ "availability" ∷ "price"
    ∷ "internal" ∷ "link" ∷ "accessibility" ∷ "security" ∷ []

unfoldable pub finding_key : Finding → Key
finding_key f =
    let tokens = sorted_set (words (lower f.finding)) in
    let roots = keep (contains root_terms) tokens in
    record {
      scope = norm f.affected_scope;
      identity = join " " (if is_empty roots then take 10 tokens else roots);
    }

abbrev pub record_key_text : Key → String
record_key_text k = append k.scope (append "::" k.identity)

-- `_finding_id`: the id, or "", and the issue.
unfoldable pub finding_id : Finding → String × Option String
finding_id f = id_or_issue f.id
  where
    id_or_issue : Option String → String × Option String
    id_or_issue none = ("", some "finding id must be a non-empty string")
    id_or_issue (some id) =
        if blank id then ("", some "finding id must be a non-empty string") else (id, none)

pub data Polarity : Type 0 where
  enable disable : Polarity

pub record Contract : Type 0 where
  pub target : String
  pub polarity : Polarity

abbrev pub contract_of : String → String → Option Contract × Option String
contract_of target polarity =
    if target == "" || not (polarity == "ENABLE" || polarity == "DISABLE")
    then (none, some "action_polarity requires a non-empty target and ENABLE or DISABLE polarity")
    else (
      some
          (record { target = target; polarity = if polarity == "ENABLE" then enable else disable }),
      none,
    )

unfoldable pub action_polarity_of : PolarityValue → Option Contract × Option String
action_polarity_of no_polarity = (none, none)
action_polarity_of not_object = (none, some "action_polarity must be an object")
action_polarity_of wrong_keys = (none, some "action_polarity requires exactly target and polarity")
action_polarity_of not_strings = (none, some "action_polarity target and polarity must be strings")
action_polarity_of (pair target polarity) = contract_of (norm target) polarity

pub data RecordState : Type 0 where
  proposed accepted conflicted evidence_review : RecordState

pub record FindingRecord : Type 0 where
  pub key : Key
  pub finding : Finding
  pub agents : List String
  pub finding_ids : List String
  pub state : RecordState
  pub evidence_state : EvidenceState
  pub evidence_issues : List String
  pub review_issues : List String

abbrev pub severity_order : Option String → ℕ
severity_order none = 1
severity_order (some s) =
    if s == "Critical"
    then 4
    else if s == "High"
    then 3
    else if s == "Medium"
    then 2
    else if s == "Low"
    then 1
    else 0

-- `str(finding.get("severity", "Low"))`
abbrev pub or_low : Option String → String
or_low none = "Low"
or_low (some s) = s

abbrev pub listed : Option String → List String
listed none = []
listed (some issue) = issue ∷ []

abbrev pub with_issues : List String → List String → List String
with_issues issues more = if is_empty more then issues else sorted_set (issues ++ more)

unfoldable pub new_record : String → List EvidenceEntry → Finding → FindingRecord
unfolding finding_key finding_id action_polarity_of
new_record agent entries f =
    let found = evidence_of entries f.evidence_refs in
    let id = finding_id f in
    record {
      key = finding_key f;
      finding = f;
      agents = agent ∷ [];
      finding_ids = if id.0 == "" then [] else id.0 ∷ [];
      state = proposed;
      evidence_state = found.0;
      evidence_issues = found.1;
      review_issues = listed (action_polarity_of f.action_polarity).1 ++ listed id.1;
    }

-- The change of a record by a further finding with its key.
unfoldable pub merge_record : FindingRecord → String → List EvidenceEntry → Finding → FindingRecord
unfolding new_record
merge_record r agent entries f =
    let fresh = new_record agent entries f in
    let shared = any (contains r.finding.evidence_refs) f.evidence_refs in
    let state = if shared then worse fresh.evidence_state duplicate else fresh.evidence_state in
    let issues =
      if shared
      then fresh.evidence_issues ++ "duplicate evidence repeated across findings" ∷ []
      else fresh.evidence_issues in
    let ids = keep (λ id. not (contains r.finding_ids id)) fresh.finding_ids in
    record r {
      agents = if contains r.agents agent then r.agents else r.agents ++ agent ∷ [];
      finding_ids = r.finding_ids ++ ids;
      finding = record r.finding {
        evidence_refs = sorted_set (r.finding.evidence_refs ++ f.evidence_refs);
        severity =
            if ltb (severity_order r.finding.severity) (severity_order f.severity)
            then some (or_low f.severity)
            else r.finding.severity;
      };
      evidence_state = worse r.evidence_state state;
      evidence_issues = sorted_set (r.evidence_issues ++ issues);
      review_issues = with_issues r.review_issues fresh.review_issues;
    }

abbrev pub add_finding :
    String → List EvidenceEntry → Finding → List FindingRecord → List FindingRecord
add_finding agent entries f [] = new_record agent entries f ∷ []
add_finding agent entries f (r ∷ rs) =
    let rest = add_finding agent entries f rs in
    if key_eq r.key (finding_key f) then merge_record r agent entries f ∷ rs else r ∷ rest

abbrev pub add_findings :
    String → List EvidenceEntry → List Finding → List FindingRecord → List FindingRecord
add_findings agent entries [] rs = rs
add_findings agent entries (f ∷ fs) rs =
    add_findings agent entries fs (add_finding agent entries f rs)

unfoldable pub add_output : Output → List FindingRecord → List FindingRecord
unfolding new_record merge_record finding_key
add_output output rs = add_findings output.agent output.evidence output.findings rs

-- `sorted(self._records)`: by scope, then by identity
unfoldable pub records : List FindingRecord → List FindingRecord
records rs = sort_by (λ r. r.key.scope) (sort_by (λ r. r.key.identity) rs)

abbrev pub is_valid : EvidenceState → Bool
is_valid valid = true
is_valid _ = false

abbrev pub settle_record : List String → FindingRecord → FindingRecord
settle_record conflicted_keys r =
    if contains conflicted_keys (record_key_text r.key)
    then record r { state = conflicted; evidence_state = contradictory }
    else record r {
      state =
          if is_valid r.evidence_state && is_empty r.review_issues
          then accepted
          else evidence_review;
    }

-- `accept_all_without_conflict`, on the record keys of the conflicts.
unfoldable pub accept_all_without_conflict : List String → List FindingRecord → List FindingRecord
accept_all_without_conflict conflicted_keys rs = map (settle_record conflicted_keys) rs
