-- ===== src/Autonomy/Laws.antt =====
-- Why an action is allowed.
use world_class_seo_agent_sy.Prelude.{
  ◌≡◌, refl, sym, inl, inr, ℕ, Bool, true, String, Option, List, [], ◌∷◌, ok, Ensures, find,
  Bool-cases, Result-cases, ltb→le, arith,
}
use world_class_seo_agent_sy.Autonomy.{
  DangerousAction, Policy, mode_level, pattern_matches, decide_dangerous, is_mutation_like,
  decide_standard, evaluate_from, evaluate_action, IsPermitted, dangerous, harmless, executing,
}

module _ (policy : Policy) (action mode : String) (approved : Bool) (current : ℕ) where
  -- What is allowed on the rest of the dangerous actions.
  abbrev first_match : List DangerousAction → Option DangerousAction
  first_match ds = find (λ x. pattern_matches x.patterns action) ds

  evaluate_from-IsPermitted :
      (ds : List DangerousAction)
      → first_match ds ≡ first_match policy.dangerous_actions
      → mode_level policy mode ≡ ok current
      → Ensures
          (λ d. d.allowed ≡ true → IsPermitted policy action mode approved)
          (λ e. Unit)
          (evaluate_from policy action mode approved current ds)
  unfolding evaluate_from decide_standard decide_dangerous
  evaluate_from-IsPermitted [] same known = λ allowed. elim (Bool-cases (is_mutation_like action)) [
    | inl m ↦ executing (sym same) (ground (arith, m, allowed))
    | inr m ↦ harmless (sym same) m
  ]
  evaluate_from-IsPermitted (d ∷ ds) same known =
      elim (Bool-cases (pattern_matches d.patterns action)) [
        | inr m ↦ rw m (evaluate_from-IsPermitted ds (ground (arith, same, m)) known)
        | inl m ↦ rw m (elim (Result-cases (mode_level policy d.minimum_mode)) [
          | inr (e, f) ↦ rw f tt
          | inl (minimum, f) ↦ rw f (λ allowed.
              dangerous d current minimum (ground (arith, same, m)) known f
                (ltb→le current minimum (ground (arith, allowed)))
                (λ asks. ground (arith, allowed, asks)))
        ])
      ]

-- An action is allowed only if the first dangerous action that it matches asks for at most the level of
-- the mode and has the approval that it asks for, or if it matches none and either does not read as a
-- mutation or comes in one of the two executing modes.
pub evaluate_action-IsPermitted :
    (policy : Policy) (action mode : String) (approved : Bool)
    → Ensures
        (λ d. d.allowed ≡ true → IsPermitted policy action mode approved)
        (λ e. Unit)
        (evaluate_action policy action mode approved)
unfolding evaluate_action
evaluate_action-IsPermitted policy action mode approved =
    elim (Result-cases (mode_level policy mode)) [
      | inr (e, f) ↦ rw f tt
      | inl (current, f) ↦ rw f (
          evaluate_from-IsPermitted policy action mode approved current policy.dangerous_actions
            refl f)
    ]
