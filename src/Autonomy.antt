-- ===== src/Autonomy.antt =====
-- runtime/autonomy.py: which actions the autonomy policy lets through. The policy is a JSON file,
-- here the parameter `policy`, with its values converted.
pub mod Laws
mod Tests
use Prim.Native.String.{String}
use world_class_seo_agent_sy.Prelude.{
  ◌≡◌, ◌↔◌, ◌⊎◌, refl, inl, inr, ℕ, ◌≤◌, ltb, Bool, true, false, not, ◌&&◌, ◌||◌, Option, none,
  some, List, [], ◌∷◌, Result, ok, err, ◌>>=◌, Ensures, any, contains, find, ◌==◌, if◌then◌else◌,
  All, Bool-cases, Option-cases, ltb→le, arith,
}
use world_class_seo_agent_sy.Prelude.Strings.{lower, occurs}

pub record Mode : Type 0 where
  pub id : String
  pub level : ℕ

pub record DangerousAction : Type 0 where
  pub id : String
  pub patterns : List String
  pub minimum_mode : String
  pub requires_approval : Bool
  pub requires_rollback : Bool

pub record Policy : Type 0 where
  pub modes : List Mode
  pub dangerous_actions : List DangerousAction

pub data ModeError : Type 0 where
  unknown_mode : String → ModeError

pub data Reason : Type 0 where
  below_minimum_mode approval_required approved_dangerous standard_allowed execution_mode_required :
      Reason

pub record AutonomyDecision : Type 0 where
  pub action_id : String
  pub mode : String
  pub allowed : Bool
  pub approval_required : Bool
  pub rollback_required : Bool
  pub matched_dangerous_action : Option String
  pub reason : Reason

abbrev pub level_of : String → List Mode → Result ModeError ℕ
level_of mode [] = err (unknown_mode mode)
level_of mode (row ∷ rows) = if row.id == mode then ok row.level else level_of mode rows

unfoldable pub mode_level : Policy → String → Result ModeError ℕ
mode_level policy mode = level_of mode policy.modes

unfoldable pub pattern_matches : List String → String → Bool
pattern_matches patterns action = any (λ p. occurs (lower p) (lower action)) patterns

-- The decision on the first dangerous action that matches.
unfoldable pub decide_dangerous : String → Bool → ℕ → ℕ → DangerousAction → AutonomyDecision
decide_dangerous mode approved current minimum d =
    let decision : Bool → Bool → Reason → AutonomyDecision = λ allowed asks reason. record {
      action_id = d.id;
      mode = mode;
      allowed = allowed;
      approval_required = asks;
      rollback_required = d.requires_rollback;
      matched_dangerous_action = some d.id;
      reason = reason;
    } in
    if ltb current minimum
    then decision false d.requires_approval below_minimum_mode
    else if d.requires_approval && not approved
    then decision false true approval_required
    else decision true d.requires_approval approved_dangerous

unfoldable pub is_mutation_like : String → Bool
is_mutation_like action =
    any (λ word. occurs word (lower action))
      ("apply" ∷ "publish" ∷ "deploy" ∷ "change" ∷ "send" ∷ [])

abbrev pub mutable_modes : List String
mutable_modes = "mode_3_approval_gated_execution" ∷ "mode_4_limited_autopilot" ∷ []

unfoldable pub decide_standard : String → String → AutonomyDecision
decide_standard mode action =
    let allowed = if is_mutation_like action then contains mutable_modes mode else true in
    record {
      action_id = "standard_action";
      mode = mode;
      allowed = allowed;
      approval_required = not allowed;
      rollback_required = false;
      matched_dangerous_action = none;
      reason = if allowed then standard_allowed else execution_mode_required;
    }

-- The loop over the dangerous actions: the first that matches decides.
unfoldable pub evaluate_from :
    Policy → String → String → Bool → ℕ → List DangerousAction → Result ModeError AutonomyDecision
evaluate_from policy action mode approved current [] = ok (decide_standard mode action)
evaluate_from policy action mode approved current (d ∷ ds) =
    let rest = evaluate_from policy action mode approved current ds in
    let decided = mode_level policy d.minimum_mode >>= λ minimum.
    ok (decide_dangerous mode approved current minimum d) in
    if pattern_matches d.patterns action then decided else rest

unfoldable pub evaluate_action : Policy → String → String → Bool → Result ModeError AutonomyDecision
unfolding evaluate_from
evaluate_action policy action mode approved = mode_level policy mode >>= λ current.
    evaluate_from policy action mode approved current policy.dangerous_actions

-- Why an action is allowed.
pub data IsPermitted (policy : Policy) (action mode : String) (approved : Bool) : Type 0 where
  dangerous :
      (d : DangerousAction) (current minimum : ℕ)
      → find (λ x. pattern_matches x.patterns action) policy.dangerous_actions ≡ some d
      → mode_level policy mode ≡ ok current
      → mode_level policy d.minimum_mode ≡ ok minimum
      → minimum ≤ current
      → (d.requires_approval ≡ true → approved ≡ true)
      → IsPermitted policy action mode approved
  harmless :
      find (λ x. pattern_matches x.patterns action) policy.dangerous_actions ≡ none
      → is_mutation_like action ≡ false
      → IsPermitted policy action mode approved
  executing :
      find (λ x. pattern_matches x.patterns action) policy.dangerous_actions ≡ none
      → contains mutable_modes mode ≡ true
      → IsPermitted policy action mode approved
