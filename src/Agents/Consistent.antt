-- ===== src/Agents/Consistent.antt =====
-- When the decision of a specialist is consistent with its output.
use world_class_seo_agent_sy.Prelude.{
  ◌≡◌, ◌↔◌, ◌⊎◌, inl, inr, refl, sym, subst, ap, ◌∙◌, Bool, true, false, not, ◌&&◌, String, List,
  [], ◌∷◌, ◌++◌, is_empty, contains, subset, lookup, Option, none, some, ok, ◌==◌, eq_iff,
  Bool-cases, arith,
}
use world_class_seo_agent_sy.Agents.Specialist.{
  decision_to_execution, ContextRow, Integrity, error_if, specialist_agents, Signals, Artifact,
  decide_state, artifact_of, decision_artifact, SpecialistDecision, SpecialistOutput, human_action,
  is_text, is_flag, expected_state, mapping_of, mapping_errors, evidence_ids, reference_errors,
  evidence_errors, is_specialist, decision_errors, specialist_output_errors,
}

-- The state is one of the five, is mapped to its execution state, and this is the one of the
-- output, or the output is a synthetic one of a partial decision; a person is asked for exactly to
-- escalate; the references are ids of the evidence, and some unless blocked.
pub record IsConsistent (out : SpecialistOutput) (d : SpecialistDecision) : Type 0 where
  pub mapped :
      (e : String) × (expected_state d.decision ≡ some e)
      × (d.mapped_execution_state ≡ some e)
      × ((out.execution_state ≡ some e)
          ⊎ ((out.execution_state ≡ some "SYNTHETIC") × (d.decision ≡ some "PARTIAL")))
  pub human : d.human_action_required ≡ some (is_text d.decision "ESCALATE")
  pub references :
      (refs : List String) × (d.evidence_refs ≡ some refs)
      × (subset refs (evidence_ids out.evidence) ≡ true)
      × ((d.decision ≡ some "BLOCKED") ⊎ (is_empty refs ≡ false))

abbrev pub Consistent : SpecialistOutput → Option SpecialistDecision → Type 0
Consistent out none = ⊥
Consistent out (some d) = IsConsistent out d

error_if-nil {ℓ} :
    {A : Type ℓ} (b c : Bool) (x y : A)
    → (error_if b x ++ error_if c y ≡ []) ↔ ((b ≡ false) × (c ≡ false))
error_if-nil true c x y = (λ h. cc, λ h. cc)
error_if-nil false true x y = (λ h. cc, λ h. cc)
error_if-nil false false x y = (λ h. (refl, refl), λ h. refl)

append-eq_nil {ℓ} : {A : Type ℓ} (xs ys : List A) → (xs ++ ys ≡ []) ↔ ((xs ≡ []) × (ys ≡ []))
append-eq_nil [] ys = (λ h. (refl, h), λ h. h.1)
append-eq_nil (x ∷ xs) ys = (λ h. cc, λ h. cc)

is_text_iff : (a : Option String) (b : String) → (is_text a b ≡ true) ↔ (a ≡ some b)
is_text_iff none b = (λ h. cc, λ h. cc)
is_text_iff (some a) b = (λ h. ap some ((eq_iff a b).0 h), λ h. (eq_iff a b).1 (cc h))

mapping_of_iff :
    (expected decision mapped actual : Option String)
    → (mapping_of expected decision mapped actual ≡ []) ↔ (
        (e : String) × (expected ≡ some e)
        × (mapped ≡ some e)
        × ((actual ≡ some e) ⊎ ((actual ≡ some "SYNTHETIC") × (decision ≡ some "PARTIAL"))))
mapping_of_iff none decision mapped actual = (λ h. cc, λ h. cc (h.1))
mapping_of_iff (some e) decision mapped actual = (
  λ h.
      let tests =
        (error_if-nil (not (is_text mapped e))
            (not (is_text actual e)
              && not (is_text actual "SYNTHETIC" && is_text decision "PARTIAL"))
            _ _).0
          h in
      (
        e,
        refl,
        (is_text_iff mapped e).0 (ground (arith, tests.0)),
        elim (Bool-cases (is_text actual e)) [
          | inl same ↦ inl ((is_text_iff actual e).0 same)
          | inr other ↦ inr (
            (is_text_iff actual "SYNTHETIC").0 (ground (arith, other, tests.1)),
            (is_text_iff decision "PARTIAL").0 (ground (arith, other, tests.1)),
          )
        ],
      ),
  λ h.
      let maps : is_text mapped e ≡ true = (is_text_iff mapped e).1 (cc (h.1, h.2)) in
      let agrees : (not (is_text actual e)
            && not (is_text actual "SYNTHETIC" && is_text decision "PARTIAL"))
          ≡ false =
        elim h.3 [
          | inl same ↦ rw ((is_text_iff actual e).1 (cc (h.1, same))) refl
          | inr partial ↦
              let a = (is_text_iff actual "SYNTHETIC").1 partial.0 in
              let b = (is_text_iff decision "PARTIAL").1 partial.1 in ground (arith, a, b)
        ] in
      (error_if-nil (not (is_text mapped e)) _ _ _).1 (rw maps refl, agrees),
)

human_iff : (a : Option Bool) (b : Bool) → (is_flag a b ≡ true) ↔ (a ≡ some b)
human_iff none b = (λ h. cc, λ h. cc)
human_iff (some true) b = (λ h. ap some (sym h), λ h. cc h)
human_iff (some false) true = (λ h. cc, λ h. cc)
human_iff (some false) false = (λ h. refl, λ h. refl)

references_iff :
    (refs : Option (List String)) (decision : Option String) (ids : List String)
    → (reference_errors refs decision ids ≡ []) ↔ (
        (rs : List String) × (refs ≡ some rs)
        × (subset rs ids ≡ true)
        × ((decision ≡ some "BLOCKED") ⊎ (is_empty rs ≡ false)))
references_iff none decision ids = (λ h. cc, λ h. cc (h.1))
references_iff (some rs) decision ids = (
  λ h.
      let tests =
        (error_if-nil (not (subset rs ids)) (not (is_text decision "BLOCKED") && is_empty rs) _ _).0
          h in
      (
        rs,
        refl,
        ground (arith, tests.0),
        elim (Bool-cases (is_text decision "BLOCKED")) [
          | inl blocked ↦ inl ((is_text_iff decision "BLOCKED").0 blocked)
          | inr open' ↦ inr (ground (arith, open', tests.1))
        ],
      ),
  λ h. back h.0 h.1 h.2 h.3,
)
  where
    back :
        (rs' : List String)
        → some rs ≡ some rs'
        → subset rs' ids ≡ true
        → (decision ≡ some "BLOCKED") ⊎ (is_empty rs' ≡ false)
        → reference_errors (some rs) decision ids ≡ []
    back rs' e known cited =
        let same : rs ≡ rs' = cc e in
        rw (same, known)
          (elim cited [
            | inl blocked ↦ rw ((is_text_iff decision "BLOCKED").1 blocked) refl
            | inr some_ref ↦ rw some_ref (elim (Bool-cases (is_text decision "BLOCKED")) [
              | inl b ↦ rw b refl
              | inr b ↦ rw b refl
            ])
          ])

error_if_iff {ℓ} : {A : Type ℓ} (b : Bool) (x : A) → (error_if (not b) x ≡ []) ↔ (b ≡ true)
error_if_iff true x = (λ h. refl, λ h. refl)
error_if_iff false x = (λ h. cc, λ h. cc)

-- The output of a specialist has no error exactly when it holds a decision that is consistent with it.
pub specialist_output_errors_iff :
    (out : SpecialistOutput)
    → is_specialist out.agent ≡ true
    → (specialist_output_errors out ≡ []) ↔ Consistent out out.specialist_decision
unfolding specialist_output_errors
specialist_output_errors_iff out s = rw s (cases out.specialist_decision)
  where
    cases : (d : Option SpecialistDecision) → (decision_errors out d ≡ []) ↔ Consistent out d
    cases none = (λ h. cc, λ h. absurd h)
    cases (some d) = (
      λ h.
          let parts = (append-eq_nil (mapping_errors out d) (evidence_errors out d)).0 h in
          let maps =
            (append-eq_nil
                (mapping_of (expected_state d.decision) d.decision d.mapped_execution_state
                  out.execution_state)
                (error_if (not (is_flag d.human_action_required (is_text d.decision "ESCALATE")))
                  human_action)).0
              parts.0 in
          record {
            mapped =
                (mapping_of_iff (expected_state d.decision) d.decision d.mapped_execution_state
                    out.execution_state).0
                  maps.0;
            human = (human_iff d.human_action_required (is_text d.decision "ESCALATE")).0 (
                (error_if_iff (is_flag d.human_action_required (is_text d.decision "ESCALATE"))
                    human_action).0
                  maps.1);
            references =
                (references_iff d.evidence_refs d.decision (evidence_ids out.evidence)).0 parts.1;
          },
      λ c. (append-eq_nil (mapping_errors out d) (evidence_errors out d)).1 (
        (append-eq_nil
              (mapping_of (expected_state d.decision) d.decision d.mapped_execution_state
                out.execution_state)
              (error_if (not (is_flag d.human_action_required (is_text d.decision "ESCALATE")))
                human_action)).1
            (
              (mapping_of_iff (expected_state d.decision) d.decision d.mapped_execution_state
                    out.execution_state).1
                  c.mapped,
              (error_if_iff (is_flag d.human_action_required (is_text d.decision "ESCALATE"))
                    human_action).1
                  ((human_iff d.human_action_required (is_text d.decision "ESCALATE")).1 c.human),
            ),
        (references_iff d.evidence_refs d.decision (evidence_ids out.evidence)).1 c.references,
      ),
    )

abbrev pub held : Artifact → SpecialistDecision
held a = record {
  decision = some a.decision;
  mapped_execution_state = a.mapped_execution_state;
  evidence_refs = some a.evidence_refs;
  human_action_required = some a.human_action_required;
}

decide_state-mapped :
    (harm evidence ambiguous limited : Bool)
    → (e : String) × (lookup
          (decide_state (record {
            material_harm = harm;
            required_evidence_available = evidence;
            evidence_ambiguous = ambiguous;
            coverage_limited = limited;
          })).0
          decision_to_execution
        ≡ some e)
unfolding decide_state
decide_state-mapped true evidence ambiguous limited = ("BLOCKED", refl)
decide_state-mapped false false ambiguous limited = ("BLOCKED", refl)
decide_state-mapped false true true limited = ("PARTIAL", refl)
decide_state-mapped false true false true = ("PARTIAL", refl)
decide_state-mapped false true false false = ("COMPLETE", refl)

module _ (read_registry : String → String → Option Integrity) (sha256 : String → String) where
  decision_artifact_lem :
      (agent : String) (rows : List ContextRow) (signals : Signals) (refs : List String)
      (a : Artifact)
      → decision_artifact read_registry sha256 agent rows signals refs ≡ ok a
      → (contains specialist_agents agent ≡ true) × (artifact_of (decide_state signals) refs ≡ a)
  unfolding decision_artifact
  decision_artifact_lem agent rows signals refs a h = (ground (arith, h), ground (arith, h))

  -- An artifact that was made for an agent is accepted in an output of this agent under the
  -- execution state that it is mapped to, if it cites ids of the evidence, and some unless it is
  -- blocked.
  pub decision_artifact-specialist_output_errors :
      (agent : String) (rows : List ContextRow) (signals : Signals) (refs : List String)
      (a : Artifact) (out : SpecialistOutput)
      → decision_artifact read_registry sha256 agent rows signals refs ≡ ok a
      → out.agent ≡ some agent
      → out.specialist_decision ≡ some (held a)
      → out.execution_state ≡ a.mapped_execution_state
      → subset a.evidence_refs (evidence_ids out.evidence) ≡ true
      → (a.decision ≡ "BLOCKED") ⊎ (is_empty a.evidence_refs ≡ false)
      → specialist_output_errors out ≡ []
  decision_artifact-specialist_output_errors agent rows signals refs a out made names holds state
        known cited =
      let (special, same) = decision_artifact_lem agent rows signals refs a made in
      let (e, mapped) =
        decide_state-mapped signals.material_harm signals.required_evidence_available
          signals.evidence_ambiguous signals.coverage_limited in
      let lookup_state : lookup a.decision decision_to_execution ≡ some e =
        ap (λ (a : Artifact). lookup a.decision decision_to_execution) (sym same) ∙ mapped in
      let maps : a.mapped_execution_state ≡ some e =
        ap (λ (a : Artifact). a.mapped_execution_state) (sym same) ∙ mapped in
      let human : a.human_action_required ≡ (a.decision == "ESCALATE") =
        ap (λ (a : Artifact). a.human_action_required) (sym same)
        ∙ ap (λ (a : Artifact). a.decision == "ESCALATE") same in
      let agent_special : is_specialist out.agent ≡ true = ap is_specialist names ∙ special in
      (specialist_output_errors_iff out agent_special).1 (
        subst (Consistent out) (sym holds) (record {
          mapped = (e, lookup_state, maps, inl (state ∙ maps));
          human = ap some human;
          references = (
            a.evidence_refs,
            refl,
            known,
            elim cited [ inl b ↦ inl (ap some b) | inr s ↦ inr s ],
          );
        }))
