-- ===== src/Agents/Completes.antt =====
-- What the rounds of a model's answers come to, and what they charge.
use Prim.Native.String.{String}
use world_class_seo_agent_sy.Prelude.{
  ◌≡◌, false≢true, inl, inr, refl, sym, ◌∙◌, subst, ℕ, zero, suc, ◌+◌, ◌-◌, ◌≤◌, true, false, not,
  eqb, List, [], ◌∷◌, ◌++◌, is_empty, Option, none, some, Result, ok, err, Result-cases,
  Option-cases, Bool-cases, arith,
}
use world_class_seo_agent_sy.Budget.Limits.{Float}
use world_class_seo_agent_sy.Budget.Usage.{BudgetExceeded, RunBudget, Estimator, reserve_model_call}
use world_class_seo_agent_sy.Budget.Runs.{
  Call, model, reserve, IsWithin, IsCharged, Settles, reserve-IsWithin, reserve-Settles,
}
use world_class_seo_agent_sy.Agents.Output.{
  AgentObject, OutputError, exceeded, OutputStatus, succeeded, failed, blocked, LlmMessage,
  StructuredOutput, Client, Validators, Request, extract_json, output_errors, with_defaults,
  validated_response, failure, correct, complete_live,
}

module _ {F : Float} where
  -- The budget after so many model calls, all but the first of them corrections.
  pub record IsSpent (b : RunBudget F) (calls : ℕ) (b' : RunBudget F) : Type 0 where
    pub limits : b'.limits ≡ b.limits
    pub nodes : b'.usage.nodes_started ≡ b.usage.nodes_started
    pub llm_calls : b'.usage.llm_calls ≡ b.usage.llm_calls + calls
    pub corrections : b'.usage.correction_calls ≡ b.usage.correction_calls + (calls - 1)
    pub within : IsWithin b'

  Settles-none :
      (c : Call F) (b : RunBudget F) (m : Option BudgetExceeded × RunBudget F)
      → Settles c b m
      → m.0 ≡ none
      → IsCharged c b m.1
  Settles-none c b (none, b') s e = s
  Settles-none c b (some x, b') s e = cc

  Settles-some :
      (c : Call F) (b : RunBudget F) (m : Option BudgetExceeded × RunBudget F) (x : BudgetExceeded)
      → Settles c b m
      → m.0 ≡ some x
      → m.1 ≡ b
  Settles-some c b (none, b') x s e = cc
  Settles-some c b (some y, b') x s e = s

  module _ (now : ℕ) (estimator : Estimator F) (b b' : RunBudget F) where
    reserve-IsSpent :
        (calls : ℕ)
        → IsSpent b calls b'
        → (reserve_model_call now (not (eqb calls 0)) estimator b').0 ≡ none
        → IsSpent b (suc calls) (reserve_model_call now (not (eqb calls 0)) estimator b').1
    unfolding reserve
    reserve-IsSpent calls s e =
        let call = model now (not (eqb calls 0)) estimator in
        let charged = Settles-none call b' (reserve call b') (reserve-Settles call b') e in
        record {
          limits = charged.limits ∙ s.limits;
          nodes = omega (arith, charged.nodes, s.nodes);
          llm_calls = omega (arith, charged.llm_calls, s.llm_calls);
          corrections = ground (arith, charged.corrections, s.corrections);
          within = reserve-IsWithin call b' s.within;
        }

    refuse-IsSpent :
        (calls : ℕ) (x : BudgetExceeded)
        → IsSpent b calls b'
        → (reserve_model_call now (not (eqb calls 0)) estimator b').0 ≡ some x
        → IsSpent b calls (reserve_model_call now (not (eqb calls 0)) estimator b').1
    unfolding reserve
    refuse-IsSpent calls x s e =
        let call = model now (not (eqb calls 0)) estimator in
        subst (IsSpent b calls)
          (sym (Settles-some call b' (reserve call b') x (reserve-Settles call b') e)) s

module _ {F : Float} {Body World : Type 0} (v : Validators Body) (client : Client F World)
    (q : Request v) where
  -- By its status: an output that passes all checks; as many attempts as are allowed and an error;
  -- or the refusal of the budget.
  abbrev pub Holds : ℕ → OutputStatus → StructuredOutput Body → Type 0
  Holds rounds succeeded s =
      (o : AgentObject Body) × (s.output ≡ some o)
      × (output_errors v o q.agent_name false ≡ [])
      × (s.errors ≡ [])
  Holds rounds failed s = (s.output ≡ none) × (s.attempts ≡ rounds) × (is_empty s.errors ≡ false)
  Holds rounds blocked s = (s.output ≡ none) × ((e : BudgetExceeded) × (s.errors ≡ exceeded e ∷ []))

  -- A result was paid for call by call, within the limits; an exception of the client left the
  -- budget within them.
  abbrev pub Completes :
      ℕ → RunBudget F → Result String (StructuredOutput Body) → RunBudget F → Type 0
  Completes rounds b (ok s) b' =
      (s.attempts ≤ rounds) × IsSpent b s.attempts b' × Holds rounds s.status s
  Completes rounds b (err e) b' = IsWithin b'

  validated_response-nil :
      (response : String)
      → is_empty (validated_response v response q.agent_name q.skills q.knowledge).1 ≡ true
      → (o : AgentObject Body) × ((validated_response v response q.agent_name q.skills
            q.knowledge).0
          ≡ some o)
        × (output_errors v o q.agent_name false ≡ [])
  unfolding validated_response
  validated_response-nil response h = elim (Result-cases (extract_json v response)) [
    | inl (o, e) ↦ (
      with_defaults v q.agent_name q.skills q.knowledge o,
      rw (e, validated_response) refl,
      empty_nil
          (output_errors v (with_defaults v q.agent_name q.skills q.knowledge o) q.agent_name false)
          (rw (e, validated_response) at h),
    )
    | inr (x, e) ↦ absurd (false≢true (rw (e, validated_response) at h))
  ]
    where
      empty_nil : (xs : List OutputError) → is_empty xs ≡ true → xs ≡ []
      empty_nil [] h = refl
      empty_nil (x ∷ xs) h = cc

  some_errors : (es : List OutputError) → is_empty (failure v es 0 none).errors ≡ false
  some_errors [] = refl
  some_errors (e ∷ es) = refl

  correct-Completes :
      (left attempts : ℕ) (active : List LlmMessage) (errors : List OutputError)
      (last : Option String) (world : World) (rounds : ℕ) (b b' : RunBudget F)
      → attempts + left ≡ rounds
      → IsSpent b attempts b'
      → Completes rounds b
          (correct v client q left attempts active errors last world b').result
          (correct v client q left attempts active errors last world b').budget
  unfolding correct
  correct-Completes zero attempts active errors last world rounds b b' h s =
      (omega (arith, h), s, (refl, omega (arith, h), some_errors errors))
  correct-Completes (suc left) attempts active errors last world rounds b b' h s =
      elim (Option-cases (reserve_model_call now (not (eqb attempts 0)) estimate b').0) [
        | inr (e, k) ↦
            rw (k, correct)
              (omega (arith, h), refuse-IsSpent now estimate b b' attempts e s k, (refl, (e, refl)))
        | inl k ↦
            rw (k, correct)
              (elim (Result-cases (client.complete world active).0) [
                | inr (e, l) ↦ rw l (reserve-IsSpent now estimate b b' attempts s k).within
                | inl (response, l) ↦
                    rw l
                      (elim (Bool-cases (
                        is_empty
                          (validated_response v response q.agent_name q.skills q.knowledge).1)) [
                            | inl valid ↦ rw valid (
                              omega (arith, h),
                              reserve-IsSpent now estimate b b' attempts s k,
                              passed (validated_response-nil response valid),
                            )
                            | inr invalid ↦ rw invalid (
                                correct-Completes left (suc attempts) _ _ _ _ rounds b _
                                  (omega (arith, h))
                                  (reserve-IsSpent now estimate b b' attempts s k))
                          ])
              ])
      ]
    where
      now : ℕ
      now = client.clock world

      estimate : Estimator F
      estimate = client.estimator world active

      passed :
          {o' : Option (AgentObject Body)}
          → (o : AgentObject Body) × (o' ≡ some o) × (output_errors v o q.agent_name false ≡ [])
          → (o : AgentObject Body) × (o' ≡ some o)
            × (output_errors v o q.agent_name false ≡ [])
            × (◌≡◌ {A = List OutputError} [] [])
      passed h = (h.0, h.1, h.2, refl)

  -- On a budget within its limits, the rounds end by one more than max_correction_attempts. Each
  -- attempt is charged as one model call, all but the first as corrections, within the limits. A
  -- result that succeeded holds an output of the agent without errors, one that failed has used all
  -- rounds and names an error, and one that is blocked names the refusal.
  pub complete_live-Completes :
      (world : World) (b : RunBudget F)
      → IsWithin b
      → Completes
          (suc b.limits.correction_attempts)
          b
          (complete_live v client q world b).result
          (complete_live v client q world b).budget
  unfolding complete_live
  complete_live-Completes world b w =
      correct-Completes (suc b.limits.correction_attempts) 0 (q.messages ++ q.instruction ∷ []) []
        none world (suc b.limits.correction_attempts) b b (omega arith)
        (record {
          limits = refl;
          nodes = refl;
          llm_calls = omega arith;
          corrections = omega arith;
          within = w;
        })
