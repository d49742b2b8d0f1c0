-- ===== src/Robots/Tests.antt =====
-- The decision for a URL under two groups, and the limits of a policy.
use world_class_seo_agent_sy.Prelude.{
  ◌≡◌, ◌↔◌, inl, inr, refl, ◌<◌, true, false, String, Option, some, List, [], ◌∷◌, ok, Ensures,
}
use world_class_seo_agent_sy.Prelude.Strings.{lower, occurs, remove_char, utf8_length, is_space}
use world_class_seo_agent_sy.Prelude.Lines.{split_lines, strip, before, after, has_char}
use world_class_seo_agent_sy.Robots.Globs.{Globs}
use world_class_seo_agent_sy.Robots.Matcher.{matches_path, glob_from, all_stars}
use world_class_seo_agent_sy.Robots.Policy.{
  Rule, Group, UrlParts, max_match_work, target_of, selected_groups, all_rules, allowed, new_policy,
  validate_robots_text, specificity,
}
use world_class_seo_agent_sy.Robots.Limits.{IsBounded, new_policy-IsBounded}
use world_class_seo_agent_sy.Robots.Parse.{
  parse_robots, lines_directives, line_directive, read_directive, read_directives, group_key,
  extend_bucket, merge_groups,
}
use world_class_seo_agent_sy.Robots.Print.{IsGroup, print_groups}
use world_class_seo_agent_sy.Robots.Printed.{parse_robots-print}
use world_class_seo_agent_sy.Robots.Collects.{cost}
use world_class_seo_agent_sy.Robots.Allowed.{Permitted, allowed-Permitted}

abbrev rule : String → String → Rule
rule directive path = record { directive = directive; path = path }

abbrev site : List Group
site =
    record { user_agents = "*" ∷ []; rules = rule "disallow" "/" ∷ [] }
    ∷ record {
      user_agents = "googlebot" ∷ [];
      rules = rule "disallow" "/private*" ∷ rule "allow" "/private/open" ∷ [];
    }
    ∷ []

-- A site whose URLs are their own paths.
abbrev split : String → Option UrlParts
split url = some (record { path = url; query = "" })

target : target_of split "/private/open/1" "googlebot" ≡ ok "/private/open/1"
unfolding target_of
target = refl

allowed-Permitted_example :
    Ensures
      (λ answer.
        (answer ≡ true)
        ↔ Permitted "/private/open/1" (all_rules (selected_groups "googlebot" site)))
      (λ e. max_match_work < cost "/private/open/1" (all_rules (selected_groups "googlebot" site)))
      (allowed split site "/private/open/1" "googlebot")
allowed-Permitted_example =
    allowed-Permitted split site "/private/open/1" "googlebot" "/private/open/1" target

allowed_tests :
    (allowed split site "/private/open/1" "googlebot" ≡ ok true)
    × (allowed split site "/private/1" "googlebot" ≡ ok false)
    × (allowed split site "/private" "bingbot" ≡ ok false)
unfolding allowed target_of selected_groups lower occurs matches_path glob_from all_stars
    specificity remove_char
allowed_tests = (refl, refl, refl)

new_policy-IsBounded_example :
    Ensures (λ policy. (policy ≡ site) × IsBounded site) (λ e. IsBounded site → ⊥) (new_policy site)
new_policy-IsBounded_example = new_policy-IsBounded site

site-IsBounded : new_policy site ≡ ok site
unfolding new_policy utf8_length
site-IsBounded = refl

site-text : validate_robots_text (print_groups site) ≡ ok tt
unfolding validate_robots_text utf8_length
site-text = refl

star-IsGroup : IsGroup (record { user_agents = "*" ∷ []; rules = rule "disallow" "/" ∷ [] })
unfolding group_key lower is_space
star-IsGroup = record {
  agents = (refl, tt);
  sorted = refl;
  rules = (record { directive = inr refl; path = refl }, tt);
  some_agent = refl;
  some_rule = refl;
}

googlebot-IsGroup : IsGroup (record {
  user_agents = "googlebot" ∷ [];
  rules = rule "disallow" "/private*" ∷ rule "allow" "/private/open" ∷ [];
})
unfolding group_key lower is_space
googlebot-IsGroup = record {
  agents = (refl, tt);
  sorted = refl;
  rules = (
    record { directive = inr refl; path = refl },
    (record { directive = inl refl; path = refl }, tt),
  );
  some_agent = refl;
  some_rule = refl;
}

parse_robots-print_example :
    parse_robots (print_groups site) ≡ ok (record { groups = site; sitemaps = []; unknown = [] })
parse_robots-print_example =
    parse_robots-print site (star-IsGroup, (googlebot-IsGroup, tt)) (refl, (refl, tt)) site-text
      site-IsBounded

-- Groups with the same agents are merged; a rule before any agent is unknown.
parse_robots_test :
    parse_robots
      "Allow: /x # no agent\nUser-Agent: B\nuser-agent: a\r\nDisallow: /1\nSitemap: /s\nUser-agent: A\nUser-agent: b\nAllow:/2\n"
    ≡ ok (record {
      groups =
          record {
            user_agents = "a" ∷ "b" ∷ [];
            rules = rule "disallow" "/1" ∷ rule "allow" "/2" ∷ [];
          }
          ∷ [];
      sitemaps = "/s" ∷ [];
      unknown = "Allow: /x # no agent" ∷ [];
    })
unfolding parse_robots validate_robots_text new_policy utf8_length lines_directives line_directive
    split_lines strip before after has_char lower read_directives read_directive merge_groups
    extend_bucket group_key
parse_robots_test = refl
