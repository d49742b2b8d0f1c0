-- ===== src/Runner/Governed.antt =====
-- What `_reconcile_outputs` leaves when it returns.
use Prim.Native.String.{◌++◌ as append}
use world_class_seo_agent_sy.Prelude.{
  ◌≡◌, refl, inl, inr, Bool, true, false, String, List, [], ◌∷◌, ◌++◌, map, keep, any, all,
  is_empty, Result, ok, err, All, All-map, Ensures, Ensures-bind, Ensures-any, Bool-cases, eq_refl,
  ◌==◌, arith,
}
use world_class_seo_agent_sy.Prelude.Sorting.{All-sort_by}
use world_class_seo_agent_sy.Handoff.Outputs.{AgentOutput}
use world_class_seo_agent_sy.Handoff.Edges.{States, Outputs}
use world_class_seo_agent_sy.Findings.Registry.{
  Output, FindingRecord, records, accept_all_without_conflict,
}
use world_class_seo_agent_sy.Findings.Conflicts.{Conflict, conflicts}
use world_class_seo_agent_sy.Findings.Decisions.{
  Decision, EvidenceError, decision_evidence, conflict_decision, conflict_decisions, is_critical,
  high_risk_decision, build_decisions,
}
use world_class_seo_agent_sy.Findings.Laws.{IsJudged, accept-IsJudged}
use world_class_seo_agent_sy.Runner.Support.{scrum_completed}
use world_class_seo_agent_sy.Runner.Reconcile.{
  completed_outputs, register, with_default, or_unfounded, Reconciled, conflict_keys,
  reconcile_outputs,
}

-- A decision on the conflict is among the decisions.
abbrev pub IsDecided : List Decision → Conflict → Type 0
IsDecided decisions c =
    any (λ d. d.decision_id == append "decision-" c.conflict_id) decisions ≡ true

IsDecided-cons :
    (d : Decision) (ds : List Decision) (c : Conflict) → IsDecided ds c → IsDecided (d ∷ ds) c
IsDecided-cons d ds c h = ground arith

IsDecided-append :
    (ds more : List Decision) (c : Conflict) → IsDecided ds c → IsDecided (ds ++ more) c
IsDecided-append [] more c h = cc h
IsDecided-append (d ∷ ds) more c h =
    elim (Bool-cases (d.decision_id == append "decision-" c.conflict_id)) [
      | inl e ↦ rw e refl
      | inr e ↦ rw e (IsDecided-append ds more c (ground (arith, e)))
    ]

unfounded-Ensures :
    {A : Type 0} (P : A → Type 0) (m : Result EvidenceError A)
    → Ensures P (λ e. Unit {0}) m
    → Ensures P (λ e. Unit {0}) (or_unfounded m)
unfounded-Ensures P (ok a) h = h
unfounded-Ensures P (err e) h = tt

abbrev AllDecided : List Conflict → List Decision → Type 0
AllDecided cs ds = All (IsDecided ds) cs

conflict_decisions-AllDecided :
    (cs : List Conflict) → Ensures (AllDecided cs) (λ e. Unit {0}) (conflict_decisions cs)
unfolding conflict_decision
conflict_decisions-AllDecided [] = tt
conflict_decisions-AllDecided (c ∷ cs) =
    Ensures-bind (λ d. d.decision_id ≡ append "decision-" c.conflict_id) (AllDecided (c ∷ cs))
      (λ e. Unit {0}) (conflict_decision c) _
      (Ensures-bind (λ e. Unit {0}) (λ d. d.decision_id ≡ append "decision-" c.conflict_id)
        (λ e. Unit {0}) (decision_evidence c.record_keys) _ (Ensures-any _) (λ e u. refl))
      (λ d e.
        Ensures-bind (AllDecided cs) (AllDecided (c ∷ cs)) (λ e. Unit {0}) (conflict_decisions cs) _
          (conflict_decisions-AllDecided cs)
          (λ ds hs. (
            ground (arith, e, eq_refl d.decision_id),
            All-map (λ x h. IsDecided-cons d ds x h) cs hs,
          )))

build-AllDecided :
    (cs : List Conflict) (findings : List FindingRecord)
    → Ensures (AllDecided cs) (λ e. Unit {0}) (build_decisions cs findings)
unfolding build_decisions
build-AllDecided cs findings =
    Ensures-bind (AllDecided cs) (AllDecided cs) (λ e. Unit {0}) (conflict_decisions cs) _
      (conflict_decisions-AllDecided cs)
      (λ ds hs.
        Ensures-bind (λ more. Unit {0}) (AllDecided cs) (λ e. Unit {0})
          (high_risk_decision (keep is_critical findings)) _ (Ensures-any _)
          (λ more u. All-map (λ x h. IsDecided-append ds more x h) cs hs))

-- What the reconciliation of the outputs promises.
pub record IsGoverned (admits : Decision → Bool) (r : Reconciled) : Type 0 where
  pub judged : All (IsJudged (conflict_keys r.found_conflicts)) r.findings
  pub decided : All (IsDecided r.decisions) r.found_conflicts
  pub governed : scrum_completed r.completed ≡ true → is_empty r.decisions ≡ false
  pub admitted : all admits r.decisions ≡ true

IsDecided-full : (ds : List Decision) (c : Conflict) → IsDecided ds c → is_empty ds ≡ false
IsDecided-full [] c h = absurd (cc h)
IsDecided-full (d ∷ ds) c h = refl

module _ (session_id : String) (completed : List AgentOutput) (states : States)
    (findings : List FindingRecord) where
  default-IsDecided :
      (built : List Decision) (c : Conflict)
      → IsDecided built c
      → IsDecided (with_default session_id completed findings states built) c
  unfolding with_default
  default-IsDecided built c h = ground (arith, h, IsDecided-full built c h)

  default-full :
      (built : List Decision)
      → scrum_completed completed ≡ true
      → is_empty (with_default session_id completed findings states built) ≡ false
  unfolding with_default
  default-full built h = ground (arith, h)

module _ (read : AgentOutput → Output) (admits : Decision → Bool) where
  -- Whenever the outputs of a run are reconciled, every record of a finding has been judged against
  -- the conflicts, every conflict has a decision, there is a decision if the Scrummaster is among the
  -- completed outputs, and the schema of decisions admits each of them.
  pub reconcile_outputs-IsGoverned :
      (session_id : String) (outputs : Outputs) (states : States)
      → Ensures
          (IsGoverned admits)
          (λ e. Unit {0})
          (reconcile_outputs read admits session_id outputs states)
  unfolding reconcile_outputs records
  reconcile_outputs-IsGoverned session_id outputs states =
      let completed = completed_outputs outputs states in
      let views = map read completed in
      let found = conflicts views (register views []) in
      let keys = conflict_keys found.0 in
      let findings = records (accept_all_without_conflict keys found.1) in
      Ensures-bind (AllDecided found.0) (IsGoverned admits) (λ e. Unit {0})
        (or_unfounded (build_decisions found.0 findings)) _
        (unfounded-Ensures (AllDecided found.0) (build_decisions found.0 findings)
          (build-AllDecided found.0 findings))
        (λ built decided.
          let ds = with_default session_id completed findings states built in
          elim (Bool-cases (all admits ds)) [
            | inr e ↦ rw e tt
            | inl e ↦ rw e (record {
              judged =
                  All-sort_by (IsJudged keys) (λ r. r.key.scope) _
                    (All-sort_by (IsJudged keys) (λ r. r.key.identity) _
                      (accept-IsJudged keys found.1));
              decided =
                  All-map (λ c h. default-IsDecided session_id completed states findings built c h)
                    found.0 decided;
              governed = default-full session_id completed states findings built;
              admitted = e;
            })
          ])
