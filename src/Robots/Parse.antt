-- ===== src/Robots/Parse.antt =====
-- `parse_robots` of integrations/product_proof/crawler.py.
use world_class_seo_agent_sy.Prelude.{
  not, ◌||◌, String, List, [], ◌∷◌, ◌++◌, map, is_empty, texts_eq, sort_by, Result, ok, ◌>>=◌, ◌>>◌,
  ◌==◌, if◌then◌else◌,
}
use world_class_seo_agent_sy.Prelude.Strings.{lower}
use world_class_seo_agent_sy.Prelude.Lines.{split_lines, before, after, has_char, strip}
use world_class_seo_agent_sy.Robots.Matcher.{RobotsError}
use world_class_seo_agent_sy.Robots.Policy.{Rule, Group, validate_robots_text, new_policy}

pub record Directive : Type 0 where
  pub field : String
  pub value : String
  pub raw : String

-- One line: a directive, or nothing.
unfoldable pub line_directive : String → List Directive
line_directive raw =
    let line = strip (before 35 raw) in
    if line == "" || not (has_char 58 line)
    then []
    else record { field = lower (strip (before 58 line)); value = strip (after 58 line); raw = raw }
      ∷ []

unfoldable pub lines_directives : List String → List Directive
lines_directives [] = []
lines_directives (raw ∷ lines) = line_directive raw ++ lines_directives lines

unfoldable pub robots_directives : String → List Directive
robots_directives text = lines_directives (split_lines text)

-- The lists that the loop fills.
pub record Reading : Type 0 where
  pub groups : List Group
  pub agents : List String
  pub rules : List Rule
  pub sitemaps : List String
  pub unknown : List String

unfoldable pub flush : Reading → Reading
flush r = record r {
  groups =
      if is_empty r.agents
      then r.groups
      else r.groups ++ record { user_agents = r.agents; rules = r.rules } ∷ [];
  agents = [];
  rules = [];
}

abbrev pub add_agent : String → Reading → Reading
add_agent value r = record r { agents = r.agents ++ value ∷ [] }

abbrev pub add_unknown : String → Reading → Reading
add_unknown raw r = record r { unknown = r.unknown ++ strip raw ∷ [] }

abbrev pub add_rule : String → String → Reading → Reading
add_rule directive path r = record r {
  rules = r.rules ++ record { directive = directive; path = path } ∷ [];
}

-- The body of the loop over the directives.
unfoldable pub read_directive : Directive → Reading → Reading
unfolding flush
read_directive d r =
    if d.field == "user-agent"
    then add_agent d.value (if is_empty r.rules then r else flush r)
    else if d.field == "allow" || d.field == "disallow"
    then (if is_empty r.agents then add_unknown d.raw r else add_rule d.field d.value r)
    else if d.field == "sitemap"
    then record r { sitemaps = r.sitemaps ++ d.value ∷ [] }
    else add_unknown d.raw r

unfoldable pub read_directives : List Directive → Reading → Reading
read_directives [] r = r
read_directives (d ∷ ds) r = read_directives ds (read_directive d r)

-- `tuple(sorted(value.lower() for value in group["user_agents"]))`
unfoldable pub group_key : Group → List String
group_key g = sort_by (λ x. x) (map lower g.user_agents)

-- `merged.setdefault(key, …)["rules"].extend(rules)`
unfoldable pub extend_bucket : List String → List Rule → List Group → List Group
extend_bucket key rules [] = record { user_agents = key; rules = rules } ∷ []
extend_bucket key rules (g ∷ gs) =
    let further = g ∷ extend_bucket key rules gs in
    if texts_eq g.user_agents key then record g { rules = g.rules ++ rules } ∷ gs else further

unfoldable pub merge_groups : List Group → List Group → List Group
merge_groups merged [] = merged
merge_groups merged (g ∷ gs) = merge_groups (extend_bucket (group_key g) g.rules merged) gs

pub record RobotsFile : Type 0 where
  pub groups : List Group
  pub sitemaps : List String
  pub unknown : List String

abbrev pub nothing_read : Reading
nothing_read = record { groups = []; agents = []; rules = []; sitemaps = []; unknown = [] }

unfoldable pub parse_robots : String → Result RobotsError RobotsFile
unfolding robots_directives
parse_robots text = do
  validate_robots_text text
  let r = flush (read_directives (robots_directives text) nothing_read)
  policy ← new_policy (merge_groups [] r.groups)
  ok (record { groups = policy; sitemaps = r.sitemaps; unknown = r.unknown })
