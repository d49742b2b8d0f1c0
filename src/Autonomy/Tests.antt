-- ===== src/Autonomy/Tests.antt =====
-- Runs of the autonomy policy.
use world_class_seo_agent_sy.Prelude.{◌≡◌, refl, true, false, [], ◌∷◌, Ensures}
use world_class_seo_agent_sy.Prelude.Strings.{lower, occurs}
use world_class_seo_agent_sy.Autonomy.{
  Policy, IsPermitted, mode_level, pattern_matches, decide_dangerous, evaluate_action,
}
use world_class_seo_agent_sy.Autonomy.Laws.{evaluate_action-IsPermitted}

abbrev small_policy : Policy
small_policy = record {
  modes =
      record { id = "mode_0_audit_only"; level = 0 }
      ∷ record { id = "mode_3_approval_gated_execution"; level = 3 }
      ∷ [];
  dangerous_actions =
      record {
        id = "mass_noindex_change";
        patterns = "mass noindex" ∷ [];
        minimum_mode = "mode_3_approval_gated_execution";
        requires_approval = true;
        requires_rollback = true;
      }
      ∷ [];
}

evaluate_action-IsPermitted_example :
    Ensures
      (λ d. IsPermitted small_policy "Mass noindex" "mode_3_approval_gated_execution" true)
      (λ e. ⊥)
      (evaluate_action small_policy "Mass noindex" "mode_3_approval_gated_execution" true)
unfolding evaluate_action mode_level pattern_matches decide_dangerous lower occurs
evaluate_action-IsPermitted_example =
    evaluate_action-IsPermitted small_policy "Mass noindex" "mode_3_approval_gated_execution" true
      refl

audit_only_test :
    Ensures
      (λ d. d.allowed ≡ false)
      (λ e. ⊥)
      (evaluate_action small_policy "Mass noindex" "mode_0_audit_only" true)
unfolding evaluate_action mode_level pattern_matches decide_dangerous lower occurs
audit_only_test = refl
