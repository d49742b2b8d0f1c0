-- ===== src/Robots/Matcher.antt =====
-- `RobotsPolicy._matches`. A cursor is the text from there on, and the work that is left counts down.
use Prim.Native.Char.{code}
use Prim.Native.String.{String, [], ◌∷◌}
use world_class_seo_agent_sy.Prelude.{
  ℕ, zero, suc, Bool, true, false, ◌&&◌, eqb, Option, none, some, Result, ok, err, if◌then◌else◌,
}
use world_class_seo_agent_sy.Robots.Globs.{is_star}

pub data RobotsError : Type 0 where
  work_limit invalid_url url_limit target_limit rule_limit path_limit size_limit text_limit :
      RobotsError

-- `star` and `retry`: the pattern behind the last star, and the target where it was tried.
abbrev pub Back : Type 0
Back = Option (String × String)

-- Whether it matches, and the work that is left.
abbrev pub Found : Type 0
Found = Result RobotsError (Bool × ℕ)

unfoldable pub all_stars : String → Bool
all_stars [] = true
all_stars (q ∷ p) = is_star q && all_stars p

-- The last two branches of the loop; past the end of the target the loop ends.
abbrev pub retry : ℕ → Back → (String → String → Back → Found) → Found
retry work none next = ok (false, work)
retry work (some (p, [])) next = ok (all_stars p, work)
retry work (some (p, c ∷ t)) next = next p t (some (p, t))

unfoldable pub glob_from : ℕ → Bool → String → String → Back → Found
glob_from work anchored p [] back = ok (all_stars p, work)
glob_from zero anchored p (c ∷ t) back = err work_limit
glob_from (suc work) anchored [] (c ∷ t) back =
    let again = retry work back (glob_from work anchored) in
    if anchored then again else ok (true, work)
glob_from (suc work) anchored (q ∷ p) (c ∷ t) back =
    let skip = glob_from work anchored p (c ∷ t) (some (p, c ∷ t)) in
    let onward = glob_from work anchored p t back in
    let again = retry work back (glob_from work anchored) in
    if is_star q then skip else if eqb (code q) (code c) then onward else again

-- `path.endswith("$")` and `path[:-1]`
unfoldable pub ends_in_dollar : String → Bool
ends_in_dollar [] = false
ends_in_dollar (c ∷ []) = eqb (code c) 36
ends_in_dollar (c ∷ d ∷ s) = ends_in_dollar (d ∷ s)

unfoldable pub but_last : String → String
but_last [] = []
but_last (c ∷ []) = []
but_last (c ∷ d ∷ s) = c ∷ but_last (d ∷ s)

abbrev pub pattern_of : String → String
pattern_of path = if ends_in_dollar path then but_last path else path

unfoldable pub matches_path : String → String → ℕ → Found
unfolding glob_from all_stars ends_in_dollar but_last
matches_path path target work = glob_from work (ends_in_dollar path) (pattern_of path) target none
