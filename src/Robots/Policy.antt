-- ===== src/Robots/Policy.antt =====
-- `RobotsPolicy`: its limits, the choice of groups, and the decision. `urlsplit` is the parameter
-- `split`, which gives the path and the query of a URL, or nothing where it raises a ValueError.
use Prim.Native.String.{String, ◌++◌ as append}
use world_class_seo_agent_sy.Prelude.{
  ℕ, ◌+◌, ◌*◌, max, Bool, true, false, not, ◌&&◌, ◌||◌, Option, none, some, List, [], ◌∷◌, ◌++◌,
  map, keep, any, is_empty, length, contains, ltb, eqb, Result, ok, err, ◌>>=◌, ◌>>◌, raise_if,
  ◌==◌, if◌then◌else◌,
}
use world_class_seo_agent_sy.Prelude.Strings.{text_length, utf8_length, lower, occurs, remove_char}
use world_class_seo_agent_sy.Robots.Matcher.{
  RobotsError, invalid_url, url_limit, target_limit, rule_limit, path_limit, size_limit, text_limit,
  matches_path, ends_in_dollar, but_last,
}

pub record Rule : Type 0 where
  pub directive : String
  pub path : String

pub record Group : Type 0 where
  pub user_agents : List String
  pub rules : List Rule

abbrev pub max_robots_bytes : ℕ
max_robots_bytes = 512000

abbrev pub max_robots_rules : ℕ
max_robots_rules = 10000

abbrev pub max_path_characters : ℕ
max_path_characters = 8192

abbrev pub max_match_work : ℕ
max_match_work = 2000000

unfoldable pub validate_robots_text : String → Result RobotsError (Unit {0})
validate_robots_text text =
    raise_if (ltb max_robots_bytes (text_length text) || ltb max_robots_bytes (utf8_length text))
      text_limit

-- The loop over the values of a group, with the bytes so far.
unfoldable pub check_values : ℕ → List String → Result RobotsError ℕ
check_values characters [] = ok characters
check_values characters (value ∷ values) = do
  raise_if (ltb max_path_characters (text_length value)) path_limit
  raise_if (ltb max_robots_bytes (characters + utf8_length value)) size_limit
  check_values (characters + utf8_length value) values

abbrev pub values_of : Group → List String
values_of g = g.user_agents ++ map (λ r. r.path) g.rules

-- The loop over the groups of `RobotsPolicy.__init__`.
unfoldable pub check_groups : ℕ → ℕ → List Group → Result RobotsError (Unit {0})
unfolding check_values
check_groups entries characters [] = ok tt
check_groups entries characters (g ∷ gs) =
    let entries' = entries + length g.user_agents + length g.rules in
    raise_if (ltb max_robots_rules entries') rule_limit >>= λ u.
    check_values characters (values_of g) >>= λ characters'. check_groups entries' characters' gs

unfoldable pub new_policy : List Group → Result RobotsError (List Group)
unfolding check_groups
new_policy groups = check_groups (length groups) 0 groups >>= λ u. ok groups

-- `len(path.removesuffix("$").replace("*", ""))`
unfoldable pub specificity : String → ℕ
unfolding ends_in_dollar but_last
specificity path =
    text_length (remove_char 42 (if ends_in_dollar path then but_last path else path))

-- What `urlsplit` says of a URL.
pub record UrlParts : Type 0 where
  pub path : String
  pub query : String

abbrev pub target_text : UrlParts → String
target_text parts =
    let path = if parts.path == "" then "/" else parts.path in
    if parts.query == "" then path else append path (append "?" parts.query)

abbrev pub split_or_error : Option UrlParts → Result RobotsError UrlParts
split_or_error none = err invalid_url
split_or_error (some parts) = ok parts

unfoldable pub target_of : (String → Option UrlParts) → String → String → Result RobotsError String
target_of split url user_agent = do
  raise_if
      (ltb (2 * max_path_characters) (text_length url)
        || ltb max_path_characters (text_length user_agent))
      url_limit
  parts ← split_or_error (split url)
  raise_if (ltb max_path_characters (text_length (target_text parts))) target_limit
  ok (target_text parts)

-- `max(score for score in scores)` from a first score on
abbrev pub max_of : ℕ → List ℕ → ℕ
max_of n [] = n
max_of n (m ∷ ms) = max_of (max n m) ms

abbrev pub group_score : List String → List String → Option ℕ
group_score [] agents = if contains agents "*" then some 0 else none
group_score (agent ∷ exact) agents = some (max_of (text_length agent) (map text_length exact))

-- The score of a group for a user agent in lower case.
unfoldable pub score_of : String → Group → Option ℕ
score_of ua g =
    let agents = map lower g.user_agents in
    group_score (keep (λ agent. not (agent == "*") && occurs agent ua) agents) agents

unfoldable pub scored : String → List Group → List (ℕ × Group)
scored ua [] = []
scored ua (g ∷ gs) =
    let rest = scored ua gs in elim (score_of ua g) [ none ↦ rest | some score ↦ (score, g) ∷ rest ]

abbrev pub best : ℕ → List (ℕ × Group) → List Group
best score [] = []
best score (s ∷ ss) = let rest = best score ss in if eqb s.0 score then s.1 ∷ rest else rest

abbrev pub most_specific : List (ℕ × Group) → List Group
most_specific [] = []
most_specific (s ∷ ss) = best (max_of s.0 (map (λ x. x.0) ss)) (s ∷ ss)

unfoldable pub selected_groups : String → List Group → List Group
unfolding scored score_of
selected_groups user_agent groups = most_specific (scored (lower user_agent) groups)

abbrev pub all_rules : List Group → List Rule
all_rules [] = []
all_rules (g ∷ gs) = g.rules ++ all_rules gs

-- A rule that matches: its specificity, and whether it allows.
abbrev pub Match : Type 0
Match = ℕ × Bool

abbrev pub match_of : Rule → Match
match_of r = (specificity r.path, r.directive == "allow")

abbrev pub with_match : Bool → Rule → List Match → List Match
with_match true r rest = match_of r ∷ rest
with_match false r rest = rest

-- The loops over the rules of the groups, under one work budget.
unfoldable pub matching_rules : String → ℕ → List Rule → Result RobotsError (List Match)
matching_rules target work [] = ok []
matching_rules target work (r ∷ rs) =
    let skipped = matching_rules target work rs in
    let tried = matches_path r.path target work >>= λ found.
    matching_rules target found.1 rs >>= λ rest. ok (with_match found.0 r rest) in
    if r.path == "" then skipped else tried

abbrev pub longest : List Match → ℕ
longest [] = 0
longest (m ∷ ms) = max_of m.0 (map (λ x. x.0) ms)

unfoldable pub decide : List Match → Bool
decide ms = if is_empty ms then true else any (λ m. m.1 && eqb m.0 (longest ms)) ms

unfoldable pub allowed :
    (String → Option UrlParts) → List Group → String → String → Result RobotsError Bool
unfolding matching_rules decide
allowed split groups url user_agent = target_of split url user_agent >>= λ target.
    matching_rules target max_match_work (all_rules (selected_groups user_agent groups)) >>= λ ms.
    ok (decide ms)
