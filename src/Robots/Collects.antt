-- ===== src/Robots/Collects.antt =====
-- The matches that the loops over the rules collect, and the work that they cost.
use Prim.Native.String.{String}
use world_class_seo_agent_sy.Prelude.{
  ◌≡◌, ◌≢◌, inl, inr, ℕ, ◌+◌, ◌≤◌, ◌<◌, true, false, List, [], ◌∷◌, Result, ok, err, ◌>>=◌, Ensures,
  ◌==◌, eq_iff, All, Some, Bool-cases, arith,
}
use world_class_seo_agent_sy.Robots.Globs.{Globs}
use world_class_seo_agent_sy.Robots.Matcher.{
  RobotsError, Found, matches_path, ends_in_dollar, pattern_of,
}
use world_class_seo_agent_sy.Robots.Decides.{Answers, enough, matches_path-Answers}
use world_class_seo_agent_sy.Robots.Policy.{Rule, Match, match_of, with_match, matching_rules}

-- The rule has a path, and that globs the target.
pub record Applies (target : String) (r : Rule) : Type 0 where
  pub path : r.path ≢ ""
  pub globs : Globs (ends_in_dollar r.path) (pattern_of r.path) target

-- The work that the rules can take.
abbrev pub cost : String → List Rule → ℕ
cost target [] = 0
cost target (r ∷ rs) = enough r.path target + cost target rs

-- The matches are those of the rules that apply, in order.
pub data Collects (target : String) : List Rule → List Match → Type 0 where
  done : Collects target [] []
  hit :
      (r : Rule) (rs : List Rule) (ms : List Match)
      → Applies target r
      → Collects target rs ms
      → Collects target (r ∷ rs) (match_of r ∷ ms)
  miss :
      (r : Rule) (rs : List Rule) (ms : List Match)
      → (Applies target r → ⊥)
      → Collects target rs ms
      → Collects target (r ∷ rs) ms

tried-Collects :
    (target : String) (work : ℕ) (r : Rule) (rs : List Rule) (found : Found)
    → r.path ≢ ""
    → Answers
        (Globs (ends_in_dollar r.path) (pattern_of r.path) target)
        (work < enough r.path target)
        (λ left. work ≤ left + enough r.path target)
        found
    → ((left : ℕ)
        → Ensures (Collects target rs) (λ e. left < cost target rs) (matching_rules target left rs))
    → Ensures
        (Collects target (r ∷ rs))
        (λ e. work < cost target (r ∷ rs))
        (found >>= λ answer.
          matching_rules target answer.1 rs >>= λ rest. ok (with_match answer.0 r rest))
tried-Collects target work r rs (err e) path answers later = omega (arith, answers)
tried-Collects target work r rs (ok (true, left)) path answers later =
    onto (matching_rules target left rs) (later left)
  where
    onto :
        (m : Result RobotsError (List Match))
        → Ensures (Collects target rs) (λ e. left < cost target rs) m
        → Ensures
            (Collects target (r ∷ rs))
            (λ e. work < cost target (r ∷ rs))
            (m >>= λ rest. ok (match_of r ∷ rest))
    onto (ok ms) c = hit r rs ms (record { path = path; globs = answers.0 }) c
    onto (err e) c = omega (arith, answers.1, c)
tried-Collects target work r rs (ok (false, left)) path answers later =
    onto (matching_rules target left rs) (later left)
  where
    onto :
        (m : Result RobotsError (List Match))
        → Ensures (Collects target rs) (λ e. left < cost target rs) m
        → Ensures
            (Collects target (r ∷ rs))
            (λ e. work < cost target (r ∷ rs))
            (m >>= λ rest. ok rest)
    onto (ok ms) c = miss r rs ms (λ a. answers.0 a.globs) c
    onto (err e) c = omega (arith, answers.1, c)

pub matching_rules-Collects :
    (target : String) (work : ℕ) (rs : List Rule)
    → Ensures (Collects target rs) (λ e. work < cost target rs) (matching_rules target work rs)
unfolding matching_rules
matching_rules-Collects target work [] = done
matching_rules-Collects target work (r ∷ rs) = elim (Bool-cases (r.path == "")) [
  | inl e ↦ rw e (
      skip ((eq_iff r.path "").0 e) (matching_rules target work rs)
        (matching_rules-Collects target work rs))
  | inr e ↦ rw e (
      tried-Collects target work r rs (matches_path r.path target work)
        (λ p. ground (arith, e, p, eq_iff r.path "")) (matches_path-Answers r.path target work)
        (λ left. matching_rules-Collects target left rs))
]
  where
    skip :
        r.path ≡ ""
        → (m : Result RobotsError (List Match))
        → Ensures (Collects target rs) (λ e. work < cost target rs) m
        → Ensures (Collects target (r ∷ rs)) (λ e. work < cost target (r ∷ rs)) m
    skip e (ok ms) c = miss r rs ms (λ a. a.path e) c
    skip e (err x) c = omega (arith, c)

module _ (target : String) (P : Match → Type 0) where
  pub All-rules :
      (rs : List Rule) (ms : List Match)
      → Collects target rs ms
      → All P ms
      → All (λ r. Applies target r → P (match_of r)) rs
  All-rules [] [] done h = tt
  All-rules [] (m ∷ ms) c h = elim c [ ]
  All-rules (r ∷ rs) (m ∷ ms) (hit r' rs' ms' a c) h = (λ b. h.0, All-rules rs ms c h.1)
  All-rules (r ∷ rs) ms (miss r' rs' ms' a c) h = (λ b. absurd (a b), All-rules rs ms c h)

  pub All-matches :
      (rs : List Rule) (ms : List Match)
      → Collects target rs ms
      → All (λ r. Applies target r → P (match_of r)) rs
      → All P ms
  All-matches [] [] done h = tt
  All-matches [] (m ∷ ms) c h = elim c [ ]
  All-matches (r ∷ rs) (m ∷ ms) (hit r' rs' ms' a c) h = (h.0 a, All-matches rs ms c h.1)
  All-matches (r ∷ rs) ms (miss r' rs' ms' a c) h = All-matches rs ms c h.1

  pub Some-rules :
      (rs : List Rule) (ms : List Match)
      → Collects target rs ms
      → Some P ms
      → Some (λ r. Applies target r × P (match_of r)) rs
  Some-rules [] [] done h = h
  Some-rules [] (m ∷ ms) c h = elim c [ ]
  Some-rules (r ∷ rs) (m ∷ ms) (hit r' rs' ms' a c) (inl h) = inl (a, h)
  Some-rules (r ∷ rs) (m ∷ ms) (hit r' rs' ms' a c) (inr h) = inr (Some-rules rs ms c h)
  Some-rules (r ∷ rs) ms (miss r' rs' ms' a c) h = inr (Some-rules rs ms c h)

  pub Some-matches :
      (rs : List Rule) (ms : List Match)
      → Collects target rs ms
      → Some (λ r. Applies target r × P (match_of r)) rs
      → Some P ms
  Some-matches [] [] done h = h
  Some-matches [] (m ∷ ms) c h = elim c [ ]
  Some-matches (r ∷ rs) (m ∷ ms) (hit r' rs' ms' a c) (inl h) = inl h.1
  Some-matches (r ∷ rs) (m ∷ ms) (hit r' rs' ms' a c) (inr h) = inr (Some-matches rs ms c h)
  Some-matches (r ∷ rs) ms (miss r' rs' ms' a c) (inl h) = absurd (a h.0)
  Some-matches (r ∷ rs) ms (miss r' rs' ms' a c) (inr h) = Some-matches rs ms c h
