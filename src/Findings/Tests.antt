-- ===== src/Findings/Tests.antt =====
-- Runs of the finding registry.
use world_class_seo_agent_sy.Prelude.{
  ◌≡◌, ◌↔◌, refl, false, none, some, String, List, [], ◌∷◌, is_empty, has_duplicates, All,
}
use world_class_seo_agent_sy.Prelude.Strings.{blank, upper}
use world_class_seo_agent_sy.Graph.Build.{dedupe_from}
use world_class_seo_agent_sy.Findings.Evidence.{
  EvidenceState, valid, EvidenceEntry, observed, sorted_set, evidence_state,
}
use world_class_seo_agent_sy.Findings.Laws.{IsCurrent, evidence_state_iff}

abbrev entries : List EvidenceEntry
entries =
    record { id = some "e1"; source = some "crawl"; state = "current" }
    ∷ record { id = some "e2"; source = none; state = "stale" }
    ∷ []

evidence_state_iff_example : ((evidence_state entries ("e1" ∷ "crawl" ∷ [])).0 ≡ valid) ↔ (
    (is_empty {A = String} ("e1" ∷ "crawl" ∷ []) ≡ false)
    × (has_duplicates ("e1" ∷ "crawl" ∷ []) ≡ false)
    × All (λ reference. IsCurrent (observed entries reference)) (sorted_set ("e1" ∷ "crawl" ∷ [])))
evidence_state_iff_example = evidence_state_iff entries ("e1" ∷ "crawl" ∷ [])

evidence_tests :
    ((evidence_state entries ("e1" ∷ "crawl" ∷ [])).0 ≡ valid)
    × ((evidence_state entries ("e2" ∷ [])).0 ≡ EvidenceState.stale)
    × ((evidence_state entries ("e3" ∷ [])).0 ≡ EvidenceState.missing)
unfolding evidence_state dedupe_from blank upper
evidence_tests = (refl, refl, refl)
