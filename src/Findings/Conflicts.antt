-- ===== src/Findings/Conflicts.antt =====
-- `FindingRegistry.conflicts` and `build_decisions`. The marks on the records are passed on.
use Prim.Native.String.{◌++◌ as append}
use world_class_seo_agent_sy.Prelude.{
  ℕ, ◌+◌, Bool, true, false, not, ◌&&◌, ◌||◌, String, Option, none, some, List, [], ◌∷◌, ◌++◌, map,
  keep, length, sort_by, ◌==◌, if◌then◌else◌,
}
use world_class_seo_agent_sy.Prelude.Numerals.{padded}
use world_class_seo_agent_sy.Graph.Build.{dedupe}
use world_class_seo_agent_sy.Findings.Evidence.{contradictory, sorted_set}
use world_class_seo_agent_sy.Findings.Registry.{
  Finding, Output, Key, key_eq, norm, finding_key, record_key_text, finding_id, Polarity, enable,
  disable, Contract, action_polarity_of, FindingRecord,
}

-- `_ActionRow`, with its scope.
pub record ActionRow : Type 0 where
  pub scope : String
  pub agent : String
  pub finding_id : String
  pub record_key : Key
  pub contract : Option Contract
  pub contract_issue : Bool
  pub statement : String

abbrev pub is_some {ℓ} : {A : Type ℓ} → Option A → Bool
is_some none = false
is_some (some a) = true

unfoldable pub action_row : String → Finding → ActionRow
action_row agent f = record {
  scope = norm f.affected_scope;
  agent = agent;
  finding_id = (finding_id f).0;
  record_key = finding_key f;
  contract = (action_polarity_of f.action_polarity).0;
  contract_issue = is_some (action_polarity_of f.action_polarity).1 || is_some (finding_id f).1;
  statement = norm f.finding;
}

abbrev pub rows_of : List Output → List ActionRow
rows_of [] = []
rows_of (o ∷ os) = map (action_row o.agent) o.findings ++ rows_of os

pub record Conflict : Type 0 where
  pub conflict_id : String
  pub affected_scope : String
  pub agents : List String
  pub finding_ids : List String
  pub record_keys : List String

abbrev pub is_either : Key → Key → FindingRecord → Bool
is_either k l r = key_eq r.key k || key_eq r.key l

abbrev pub change_if :
    (FindingRecord → Bool)
    → (FindingRecord → FindingRecord)
    → List FindingRecord
    → List FindingRecord
change_if p change [] = []
change_if p change (r ∷ rs) = (if p r then change r else r) ∷ change_if p change rs

unfoldable pub mark_contradictory : Key → Key → List FindingRecord → List FindingRecord
mark_contradictory k l rs =
    change_if (is_either k l)
      (λ r. record r {
        evidence_state = contradictory;
        evidence_issues =
            sorted_set
              (r.evidence_issues ++ "specialists supplied contradictory evidence or actions" ∷ []);
      })
      rs

unfoldable pub mark_action_review : Key → Key → String → List FindingRecord → List FindingRecord
mark_action_review k l issue rs =
    change_if (is_either k l)
      (λ r. record r { review_issues = sorted_set (r.review_issues ++ issue ∷ []) }) rs

abbrev pub polarity_eq : Polarity → Polarity → Bool
polarity_eq enable enable = true
polarity_eq disable disable = true
polarity_eq _ _ = false

abbrev pub opposes : Option Contract → Option Contract → Bool
opposes (some left) (some right) =
    left.target == right.target && not (polarity_eq left.polarity right.polarity)
opposes _ _ = false

-- `[_record_key_text(key) for key in sorted({left, right})]`
abbrev pub pair_key_texts : Key → Key → List String
pair_key_texts k l =
    if key_eq k l
    then record_key_text k ∷ []
    else map record_key_text (sort_by (λ x. x.scope) (sort_by (λ x. x.identity) (k ∷ l ∷ [])))

abbrev pub conflict_of : ℕ → ActionRow → ActionRow → Conflict
conflict_of number left right = record {
  conflict_id = append "conflict-" (padded 3 number);
  affected_scope = if left.scope == "" then "unspecified" else left.scope;
  agents = left.agent ∷ right.agent ∷ [];
  finding_ids = left.finding_id ∷ right.finding_id ∷ [];
  record_keys = pair_key_texts left.record_key right.record_key;
}

-- `_reconcile_action_pair`: whether the pair is a conflict, and the records.
unfoldable pub reconcile_action_pair :
    ActionRow → ActionRow → List FindingRecord → Bool × List FindingRecord
unfolding mark_contradictory mark_action_review
reconcile_action_pair left right rs =
    let k = left.record_key in
    let l = right.record_key in
    if left.contract_issue || right.contract_issue
    then (
      false,
      mark_action_review k l "malformed structured action polarity requires specialist review" rs,
    )
    else if is_some left.contract && is_some right.contract
    then if opposes left.contract right.contract
      then (true, mark_contradictory k l rs)
      else (false, rs)
    else if not (left.agent == right.agent) && not (left.statement == right.statement)
    then (
      false,
      mark_action_review k l "specialist action compatibility is unproven without action_polarity"
          rs,
    )
    else (false, rs)

-- The inner loop: a row against the later rows of its scope, with the conflicts found so far.
unfoldable pub against :
    ActionRow
    → List ActionRow
    → List Conflict
    → List FindingRecord
    → List Conflict × List FindingRecord
unfolding reconcile_action_pair
against left [] found rs = (found, rs)
against left (right ∷ rows) found rs =
    let pair = reconcile_action_pair left right rs in
    against left rows
      (if pair.0 then found ++ conflict_of (1 + length found) left right ∷ [] else found) pair.1

unfoldable pub in_scope :
    List ActionRow → List Conflict → List FindingRecord → List Conflict × List FindingRecord
unfolding against
in_scope [] found rs = (found, rs)
in_scope (left ∷ rows) found rs =
    let here = against left rows found rs in in_scope rows here.0 here.1

-- The scopes in the order of their first rows.
abbrev pub by_scopes :
    List String
    → List ActionRow
    → List Conflict
    → List FindingRecord
    → List Conflict × List FindingRecord
by_scopes [] rows found rs = (found, rs)
by_scopes (scope ∷ scopes) rows found rs =
    let here = in_scope (keep (λ row. row.scope == scope) rows) found rs in
    by_scopes scopes rows here.0 here.1

unfoldable pub conflicts : List Output → List FindingRecord → List Conflict × List FindingRecord
unfolding in_scope action_row
conflicts outputs rs =
    by_scopes (dedupe (map (λ row. row.scope) (rows_of outputs))) (rows_of outputs) [] rs
