-- ===== src/Robots/Allowed.antt =====
-- When robots.txt allows a URL: the longest path that matches decides, and allowing wins a tie.
use Prim.Native.String.{String}
use world_class_seo_agent_sy.Prelude.{
  ◌≡◌, ◌↔◌, ◌⊎◌, inl, inr, refl, ℕ, ◌≤◌, ◌<◌, max, true, ◌&&◌, Option, List, [], ◌∷◌, map, subst,
  any, eqb, Result, ok, err, ◌>>=◌, Ensures, eq_iff, All, Some, Bool-cases, arith,
}
use world_class_seo_agent_sy.Robots.Matcher.{RobotsError}
use world_class_seo_agent_sy.Robots.Policy.{
  Rule, Group, UrlParts, max_match_work, specificity, max_of, Match, matching_rules, longest,
  decide, target_of, selected_groups, all_rules, allowed,
}
use world_class_seo_agent_sy.Robots.Collects.{
  Applies, cost, Collects, matching_rules-Collects, All-rules, All-matches, Some-rules,
  Some-matches,
}

-- No rule applies, or one that applies allows, and none that applies is more specific.
abbrev pub Permitted : String → List Rule → Type 0
Permitted target rules =
    All (λ r. Applies target r → ⊥) rules
    ⊎ Some
        (λ r.
          Applies target r
          × (r.directive ≡ "allow")
          × All (λ s. Applies target s → specificity s.path ≤ specificity r.path) rules)
        rules

Some-map :
    {A : Type 0} (P Q : A → Type 0) → ((a : A) → P a → Q a) → (xs : List A) → Some P xs → Some Q xs
Some-map P Q f [] h = h
Some-map P Q f (x ∷ xs) (inl h) = inl (f x h)
Some-map P Q f (x ∷ xs) (inr h) = inr (Some-map P Q f xs h)

-- `max` over the scores is at least each, and at most any bound of them.
le-max_of :
    (n : ℕ) (ms : List Match)
    → (n ≤ max_of n (map (λ x. x.0) ms)) × All (λ m. m.0 ≤ max_of n (map (λ x. x.0) ms)) ms
le-max_of n [] = (omega arith, tt)
le-max_of n (m ∷ ms) =
    let (first, later) = le-max_of (max n m.0) ms in
    (omega (arith, first), (omega (arith, first), later))

max_of-le :
    (n k : ℕ) (ms : List Match) → n ≤ k → All (λ m. m.0 ≤ k) ms → max_of n (map (λ x. x.0) ms) ≤ k
max_of-le n k [] h hs = h
max_of-le n k (m ∷ ms) h hs = max_of-le (max n m.0) k ms (omega (arith, h, hs.0)) hs.1

longest-All : (ms : List Match) → All (λ m. m.0 ≤ longest ms) ms
longest-All [] = tt
longest-All (m ∷ ms) = le-max_of m.0 ms

longest-le : (k : ℕ) (ms : List Match) → All (λ m. m.0 ≤ k) ms → longest ms ≤ k
longest-le k [] h = omega arith
longest-le k (m ∷ ms) h = max_of-le m.0 k ms h.0 h.1

any-Some :
    (all ms : List Match)
    → any (λ m. m.1 && eqb m.0 (longest all)) ms ≡ true
    → Some (λ m. (m.1 ≡ true) × All (λ n. n.0 ≤ m.0) all) ms
any-Some all [] h = cc h
any-Some all (m ∷ ms) h = elim (Bool-cases (m.1 && eqb m.0 (longest all))) [
  | inl e ↦
      let same : longest all ≡ m.0 = ground (arith, e) in
      inl (ground (arith, e), subst (λ k. All (λ n. n.0 ≤ k) all) same (longest-All all))
  | inr e ↦ inr (any-Some all ms (ground (arith, e)))
]

Some-any :
    (all ms : List Match)
    → All (λ m. m.0 ≤ longest all) ms
    → Some (λ m. (m.1 ≡ true) × All (λ n. n.0 ≤ m.0) all) ms
    → any (λ m. m.1 && eqb m.0 (longest all)) ms ≡ true
Some-any all [] b h = absurd h
Some-any all (m ∷ ms) b (inl h) =
    let top = longest-le m.0 all h.1 in
    let below = b.0 in let allows = h.0 in ground (arith, top, below, allows)
Some-any all (m ∷ ms) b (inr h) = ground (arith, Some-any all ms b.1 h)

decide_iff :
    (ms : List Match)
    → (decide ms ≡ true) ↔ (All (λ m. ⊥) ms ⊎ Some (λ m. (m.1 ≡ true) × All (λ n. n.0 ≤ m.0) ms) ms)
unfolding decide
decide_iff [] = (λ h. inl tt, λ h. refl)
decide_iff (m ∷ ms) = (
  λ h. inr (any-Some (m ∷ ms) (m ∷ ms) h),
  λ h. elim h [
    | inl none_apply ↦ absurd none_apply.0
    | inr some_wins ↦ Some-any (m ∷ ms) (m ∷ ms) (longest-All (m ∷ ms)) some_wins
  ],
)

Collects-Permitted :
    (target : String) (rs : List Rule) (ms : List Match)
    → Collects target rs ms
    → (decide ms ≡ true) ↔ Permitted target rs
Collects-Permitted target rs ms c = (
  λ h. elim ((decide_iff ms).0 h) [
    | inl none_apply ↦ inl (All-rules target (λ m. ⊥) rs ms c none_apply)
    | inr wins ↦ inr (
        Some-map _ _
          (λ r h. (
            h.0,
            (eq_iff r.directive "allow").0 h.1.0,
            All-rules target (λ n. n.0 ≤ specificity r.path) rs ms c h.1.1,
          ))
          rs (Some-rules target (λ m. (m.1 ≡ true) × All (λ n. n.0 ≤ m.0) ms) rs ms c wins))
  ],
  λ h. (decide_iff ms).1 (elim h [
    | inl none_apply ↦ inl (All-matches target (λ m. ⊥) rs ms c none_apply)
    | inr wins ↦ inr (
        Some-matches target (λ m. (m.1 ≡ true) × All (λ n. n.0 ≤ m.0) ms) rs ms c
          (Some-map _ _
            (λ r h. (
              h.0,
              (
                (eq_iff r.directive "allow").1 h.1,
                All-matches target (λ n. n.0 ≤ specificity r.path) rs ms c h.2,
              ),
            ))
            rs wins))
  ]),
)

-- Once the target of a URL is within its limits, the answer is whether the rules of the groups that
-- name the user agent best permit it; only rules that can cost more than two million steps stop the
-- decision.
pub allowed-Permitted :
    (split : String → Option UrlParts) (groups : List Group) (url user_agent target : String)
    → target_of split url user_agent ≡ ok target
    → Ensures
        (λ answer.
          (answer ≡ true) ↔ Permitted target (all_rules (selected_groups user_agent groups)))
        (λ e. max_match_work < cost target (all_rules (selected_groups user_agent groups)))
        (allowed split groups url user_agent)
unfolding allowed
allowed-Permitted split groups url user_agent target e = rw e (
    onto (matching_rules target max_match_work rules)
      (matching_rules-Collects target max_match_work rules))
  where
    rules : List Rule
    rules = all_rules (selected_groups user_agent groups)

    onto :
        (m : Result RobotsError (List Match))
        → Ensures (Collects target rules) (λ e. max_match_work < cost target rules) m
        → Ensures
            (λ answer. (answer ≡ true) ↔ Permitted target rules)
            (λ e. max_match_work < cost target rules)
            (m >>= λ ms. ok (decide ms))
    onto (ok ms) c = Collects-Permitted target rules ms c
    onto (err x) c = c
