-- ===== src/Findings/Laws.antt =====
-- When the evidence of a finding is valid, and what the registry accepts.
use world_class_seo_agent_sy.Prelude.{
  is_empty-nil, ◌≡◌, ◌≢◌, ◌↔◌, ◌⊎◌, refl, inl, inr, true, false, String, List, [], ◌∷◌, is_empty,
  length, contains, has_duplicates, All, Bool-cases, arith,
}
use world_class_seo_agent_sy.Findings.Evidence.{
  EvidenceState, valid, missing, stale, duplicate, contradictory, EvidenceEntry, worse, observed,
  reference_state, references_state, sorted_set, evidence_state,
}
use world_class_seo_agent_sy.Findings.Registry.{
  FindingRecord, accepted, conflicted, evidence_review, record_key_text, is_valid, settle_record,
  accept_all_without_conflict,
}

-- One item of evidence, with a status that is none of the bad ones.
pub record IsCurrent (statuses : List String) : Type 0 where
  pub once : length statuses ≡ 1
  pub contradictory : contains statuses "CONTRADICTORY" ≡ false
  pub missing : contains statuses "MISSING" ≡ false
  pub invalid : contains statuses "INVALID" ≡ false
  pub stale : contains statuses "STALE" ≡ false

worse-valid :
    (left right : EvidenceState) → worse left right ≡ valid → (left ≡ valid) × (right ≡ valid)
worse-valid valid valid h = (refl, refl)
worse-valid valid missing h = cc
worse-valid valid stale h = cc
worse-valid valid duplicate h = cc
worse-valid valid contradictory h = cc
worse-valid missing valid h = cc
worse-valid missing missing h = cc
worse-valid missing stale h = cc
worse-valid missing duplicate h = cc
worse-valid missing contradictory h = cc
worse-valid stale valid h = cc
worse-valid stale missing h = cc
worse-valid stale stale h = cc
worse-valid stale duplicate h = cc
worse-valid stale contradictory h = cc
worse-valid duplicate valid h = cc
worse-valid duplicate missing h = cc
worse-valid duplicate stale h = cc
worse-valid duplicate duplicate h = cc
worse-valid duplicate contradictory h = cc
worse-valid contradictory valid h = cc
worse-valid contradictory missing h = cc
worse-valid contradictory stale h = cc
worse-valid contradictory duplicate h = cc
worse-valid contradictory contradictory h = cc

length-is_empty : (xs : List String) → length xs ≡ 1 → is_empty xs ≡ false
length-is_empty [] h = absurd (omega (arith, h))
length-is_empty (x ∷ xs) h = refl

reference_state_iff :
    (reference : String) (statuses : List String)
    → ((reference_state reference statuses).0 ≡ valid) ↔ IsCurrent statuses
unfolding reference_state
reference_state_iff reference statuses = (
  λ h. record {
    once = ground (arith, h);
    contradictory = ground (arith, h);
    missing = ground (arith, h);
    invalid = ground (arith, h);
    stale = ground (arith, h);
  },
  λ c.
      let e = length-is_empty statuses c.once in
      let o = c.once in
      let a = c.contradictory in
      let m = c.missing in let i = c.invalid in let s = c.stale in ground (arith, e, o, a, m, i, s),
)

references_state_iff :
    (entries : List EvidenceEntry) (references : List String) (so_far : EvidenceState)
    → ((references_state entries references so_far).0 ≡ valid)
      ↔ ((so_far ≡ valid) × All (λ reference. IsCurrent (observed entries reference)) references)
unfolding references_state
references_state_iff entries [] so_far = (λ h. (h, tt), λ c. c.0)
references_state_iff entries (reference ∷ references) so_far =
    let found = (reference_state reference (observed entries reference)).0 in
    let rest = references_state_iff entries references (worse so_far found) in
    let here = reference_state_iff reference (observed entries reference) in
    (
      λ h.
          let (worst, later) = rest.0 h in
          let (before, current) = worse-valid so_far found worst in
          (before, (here.0 current, later)),
      λ (before, (current, later)). rest.1 (rw (before, here.1 current) refl, later),
    )

-- The evidence of a finding is valid exactly when it has references, none twice, and each is the id or
-- the source of exactly one item, whose status is not contradictory, missing, invalid or stale.
pub evidence_state_iff :
    (entries : List EvidenceEntry) (references : List String)
    → ((evidence_state entries references).0 ≡ valid) ↔ (
        (is_empty references ≡ false)
        × (has_duplicates references ≡ false)
        × All (λ reference. IsCurrent (observed entries reference)) (sorted_set references))
unfolding evidence_state
evidence_state_iff entries references =
    let loop = references_state_iff entries (sorted_set references) in
    elim (Bool-cases (is_empty references)) [
      | inl e ↦ rw e (λ h. cc h, λ c. cc c.0)
      | inr e ↦ rw e (elim (Bool-cases (has_duplicates references)) [
        | inl d ↦ rw d (λ h. cc ((loop duplicate).0 h).0, λ c. cc c.1)
        | inr d ↦ rw d (λ h. (refl, refl, ((loop valid).0 h).1), λ c. (loop valid).1 (refl, c.2))
      ])
    ]

-- A record after the registry has judged it.
abbrev pub IsJudged : List String → FindingRecord → Type 0
IsJudged conflicted_keys r =
    ((contains conflicted_keys (record_key_text r.key) ≡ true)
      × (r.state ≡ conflicted)
      × (r.evidence_state ≡ EvidenceState.contradictory))
    ⊎ ((contains conflicted_keys (record_key_text r.key) ≡ false)
        × (r.state ≡ accepted)
        × (r.evidence_state ≡ valid)
        × (r.review_issues ≡ []))
    ⊎ ((contains conflicted_keys (record_key_text r.key) ≡ false)
        × (r.state ≡ evidence_review)
        × ((r.evidence_state ≢ valid) ⊎ (r.review_issues ≢ [])))

is_valid-valid : (state : EvidenceState) → is_valid state ≡ true → state ≡ valid
is_valid-valid valid h = refl
is_valid-valid missing h = cc
is_valid-valid stale h = cc
is_valid-valid duplicate h = cc
is_valid-valid contradictory h = cc

-- Every record that the registry has judged is in conflict and contradictory, or accepted with valid
-- evidence and nothing to review, or left to review with evidence that is not valid or an issue.
pub accept-IsJudged :
    (conflicted_keys : List String) (rs : List FindingRecord)
    → All (IsJudged conflicted_keys) (accept_all_without_conflict conflicted_keys rs)
unfolding accept_all_without_conflict
accept-IsJudged conflicted_keys [] = tt
accept-IsJudged conflicted_keys (r ∷ rs) = (judged, accept-IsJudged conflicted_keys rs)
  where
    judged : IsJudged conflicted_keys (settle_record conflicted_keys r)
    judged = elim (Bool-cases (contains conflicted_keys (record_key_text r.key))) [
      | inl c ↦ rw c (inl (c, refl, refl))
      | inr c ↦ rw c (elim (Bool-cases (is_valid r.evidence_state)) [
        | inr v ↦ rw v (inr (inr (c, refl, inl (λ e. ground (arith, v, e)))))
        | inl v ↦ rw v (elim (Bool-cases (is_empty r.review_issues)) [
          | inl e ↦ rw e (
              inr
                (inl (c, refl, is_valid-valid r.evidence_state v, is_empty-nil r.review_issues e)))
          | inr e ↦ rw e (inr (inr (c, refl, inr (λ n. ground (arith, e, n)))))
        ])
      ])
    ]
