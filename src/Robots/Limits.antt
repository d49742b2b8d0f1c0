-- ===== src/Robots/Limits.antt =====
-- The sizes of a policy, against the limits that its constructor checks.
use Prim.Native.String.{String}
use world_class_seo_agent_sy.Prelude.{
  ◌≡◌, refl, ℕ, ◌+◌, ◌≤◌, ◌<◌, ◌⊎◌, inl, inr, List, [], ◌∷◌, length, ltb, Result, ok, err, ◌>>=◌,
  Ensures, All, Bool-cases, ltb→le, arith,
}
use world_class_seo_agent_sy.Prelude.Strings.{text_length, utf8_length}
use world_class_seo_agent_sy.Robots.Matcher.{RobotsError}
use world_class_seo_agent_sy.Robots.Policy.{
  Group, max_robots_bytes, max_robots_rules, max_path_characters, check_values, values_of,
  check_groups, new_policy,
}

abbrev pub Short : List String → Type 0
Short values = All (λ v. text_length v ≤ max_path_characters) values

abbrev pub bytes : List String → ℕ
bytes [] = 0
bytes (v ∷ vs) = utf8_length v + bytes vs

abbrev pub members : List Group → ℕ
members [] = 0
members (g ∷ gs) = length g.user_agents + length g.rules + members gs

abbrev pub group_bytes : List Group → ℕ
group_bytes [] = 0
group_bytes (g ∷ gs) = bytes (values_of g) + group_bytes gs

-- At most 10000 groups, agents and rules, texts of at most 8192 characters, and 512000 bytes of them.
pub record IsBounded (groups : List Group) : Type 0 where
  pub entries : length groups + members groups ≤ max_robots_rules
  pub texts : All (λ g. Short (values_of g)) groups
  pub size : group_bytes groups ≤ max_robots_bytes

check_values_lem :
    (n : ℕ) (vs : List String)
    → n ≤ max_robots_bytes
    → Ensures
        (λ k. (k ≡ n + bytes vs) × (k ≤ max_robots_bytes) × Short vs)
        (λ e. Short vs → n + bytes vs ≤ max_robots_bytes → ⊥)
        (check_values n vs)
unfolding check_values
check_values_lem n [] h = (omega arith, h, tt)
check_values_lem n (v ∷ vs) h = elim (Bool-cases (ltb max_path_characters (text_length v))) [
  | inl long ↦ rw long (λ short total. ground (arith, long, short.0))
  | inr fits ↦ rw fits (elim (Bool-cases (ltb max_robots_bytes (n + utf8_length v))) [
    | inl large ↦ rw large (λ short total. ground (arith, large, total))
    | inr left ↦ rw left (
        onto (check_values (n + utf8_length v) vs) (ltb→le _ _ fits)
          (check_values_lem (n + utf8_length v) vs (ltb→le _ _ left)))
  ])
]
  where
    onto :
        (m : Result RobotsError ℕ)
        → text_length v ≤ max_path_characters
        → Ensures
            (λ k. (k ≡ n + utf8_length v + bytes vs) × (k ≤ max_robots_bytes) × Short vs)
            (λ e. Short vs → n + utf8_length v + bytes vs ≤ max_robots_bytes → ⊥)
            m
        → Ensures
            (λ k. (k ≡ n + bytes (v ∷ vs)) × (k ≤ max_robots_bytes) × Short (v ∷ vs))
            (λ e. Short (v ∷ vs) → n + bytes (v ∷ vs) ≤ max_robots_bytes → ⊥)
            m
    onto (ok k) short h = (omega (arith, h.0), h.1, (short, h.2))
    onto (err e) short h = λ all_short total. h all_short.1 (omega (arith, total))

abbrev Within : ℕ → ℕ → List Group → Type 0
Within entries n gs =
    (entries + members gs ≤ max_robots_rules)
    × (n + group_bytes gs ≤ max_robots_bytes)
    × All (λ g. Short (values_of g)) gs

check_groups_lem :
    (entries n : ℕ) (gs : List Group)
    → n ≤ max_robots_bytes
    → (entries ≤ max_robots_rules) ⊎ (0 < length gs)
    → Ensures (λ u. Within entries n gs) (λ e. Within entries n gs → ⊥) (check_groups entries n gs)
unfolding check_groups
check_groups_lem entries n [] h (inl k) = (omega arith, omega arith, tt)
check_groups_lem entries n [] h (inr k) = absurd (omega (arith, k))
check_groups_lem entries n (g ∷ gs) h k =
    elim (Bool-cases (ltb max_robots_rules (entries + length g.user_agents + length g.rules))) [
      | inl many ↦ rw many (λ w. ground (arith, many, w.0))
      | inr fits ↦ rw fits (
          onto (check_values n (values_of g)) (check_values_lem n (values_of g) h) (λ k' le.
            check_groups_lem (entries + length g.user_agents + length g.rules) k' gs le
              (inl (ltb→le _ _ fits))))
    ]
  where
    after :
        (k' : ℕ) (m : Result RobotsError (Unit {0}))
        → (k' ≡ n + bytes (values_of g)) × (k' ≤ max_robots_bytes) × Short (values_of g)
        → Ensures
            (λ u. Within (entries + length g.user_agents + length g.rules) k' gs)
            (λ e. Within (entries + length g.user_agents + length g.rules) k' gs → ⊥)
            m
        → Ensures (λ u. Within entries n (g ∷ gs)) (λ e. Within entries n (g ∷ gs) → ⊥) m
    after k' (ok u) v h = (omega (arith, h.0), omega (arith, h.1, v.0), (v.2, h.2))
    after k' (err e) v h = λ w. h (omega (arith, w.0), omega (arith, w.1, v.0), w.2.1)

    onto :
        (m : Result RobotsError ℕ)
        → Ensures
            (λ k'. (k' ≡ n + bytes (values_of g)) × (k' ≤ max_robots_bytes) × Short (values_of g))
            (λ e. Short (values_of g) → n + bytes (values_of g) ≤ max_robots_bytes → ⊥)
            m
        → ((k' : ℕ)
            → k' ≤ max_robots_bytes
            → Ensures
                (λ u. Within (entries + length g.user_agents + length g.rules) k' gs)
                (λ e. Within (entries + length g.user_agents + length g.rules) k' gs → ⊥)
                (check_groups (entries + length g.user_agents + length g.rules) k' gs))
        → Ensures
            (λ u. Within entries n (g ∷ gs))
            (λ e. Within entries n (g ∷ gs) → ⊥)
            (m >>= λ k'. check_groups (entries + length g.user_agents + length g.rules) k' gs)
    onto (ok k') v later =
        after k' (check_groups (entries + length g.user_agents + length g.rules) k' gs) v
          (later k' v.1)
    onto (err e) v later = λ w. v w.2.0 (omega (arith, w.1))

-- A policy is accepted, as it is, exactly when it is bounded.
pub new_policy-IsBounded :
    (groups : List Group)
    → Ensures
        (λ policy. (policy ≡ groups) × IsBounded groups)
        (λ e. IsBounded groups → ⊥)
        (new_policy groups)
unfolding new_policy
new_policy-IsBounded groups =
    onto (check_groups (length groups) 0 groups)
      (check_groups_lem (length groups) 0 groups (omega arith) (some_left groups))
  where
    some_left : (gs : List Group) → (length gs ≤ max_robots_rules) ⊎ (0 < length gs)
    some_left [] = inl (omega arith)
    some_left (g ∷ gs) = inr (omega arith)

    onto :
        (m : Result RobotsError (Unit {0}))
        → Ensures
            (λ u. Within (length groups) 0 groups)
            (λ e. Within (length groups) 0 groups → ⊥)
            m
        → Ensures
            (λ policy. (policy ≡ groups) × IsBounded groups)
            (λ e. IsBounded groups → ⊥)
            (m >>= λ u. ok groups)
    onto (ok u) h = (refl, record { entries = h.0; texts = h.2; size = omega (arith, h.1) })
    onto (err e) h = λ b. h (b.entries, omega (arith, b.size), b.texts)
