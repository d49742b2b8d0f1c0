-- ===== src/Robots/Print.antt =====
-- Groups written as a robots.txt, and the directives that are read from it.
use Prim.Native.String.{String, ◌∷◌ as cons, ◌++◌ as append}
use world_class_seo_agent_sy.Prelude.{
  ◌≡◌, ◌⊎◌, inl, inr, refl, ap, ◌∙◌, true, false, List, [], ◌∷◌, ◌++◌, any, is_empty, texts_eq, All,
}
use world_class_seo_agent_sy.Prelude.Strings.{is_space, lower}
use world_class_seo_agent_sy.Prelude.Lines.{split_lines, has_char}
use world_class_seo_agent_sy.Robots.Policy.{Rule, Group}
use world_class_seo_agent_sy.Robots.Parse.{
  Directive, lines_directives, robots_directives, group_key,
}
use world_class_seo_agent_sy.Robots.Lines.{plain, line, line_directive-line, split_lines-line}

abbrev pub print_line : String → String → String → String
print_line field value rest = append (line field value) (cons "\n" rest)

abbrev pub print_agents : List String → String → String
print_agents [] rest = rest
print_agents (a ∷ agents) rest = print_line "user-agent" a (print_agents agents rest)

abbrev pub print_rules : List Rule → String → String
print_rules [] rest = rest
print_rules (r ∷ rs) rest = print_line r.directive r.path (print_rules rs rest)

abbrev pub print_groups : List Group → String
print_groups [] = ""
print_groups (g ∷ gs) = print_agents g.user_agents (print_rules g.rules (print_groups gs))

-- Allows or disallows a path without white space and `#`.
pub record IsRule (r : Rule) : Type 0 where
  pub directive : (r.directive ≡ "allow") ⊎ (r.directive ≡ "disallow")
  pub path : plain r.path ≡ true

-- Has agents in lower case and in order, and rules.
pub record IsGroup (g : Group) : Type 0 where
  pub agents : All (λ a. plain a ≡ true) g.user_agents
  pub sorted : group_key g ≡ g.user_agents
  pub rules : All IsRule g.rules
  pub some_agent : is_empty g.user_agents ≡ false
  pub some_rule : is_empty g.rules ≡ false

-- No group has the agents of an earlier one.
abbrev pub Distinct : List Group → List Group → Type 0
Distinct seen [] = Unit
Distinct seen (g ∷ gs) =
    (any (λ s. texts_eq s.user_agents g.user_agents) seen ≡ false) × Distinct (seen ++ g ∷ []) gs

abbrev pub agents_directives : List String → List Directive → List Directive
agents_directives [] ds = ds
agents_directives (a ∷ agents) ds =
    record { field = "user-agent"; value = a; raw = line "user-agent" a }
    ∷ agents_directives agents ds

abbrev pub rules_directives : List Rule → List Directive → List Directive
rules_directives [] ds = ds
rules_directives (r ∷ rs) ds =
    record { field = r.directive; value = r.path; raw = line r.directive r.path }
    ∷ rules_directives rs ds

abbrev pub groups_directives : List Group → List Directive
groups_directives [] = []
groups_directives (g ∷ gs) =
    agents_directives g.user_agents (rules_directives g.rules (groups_directives gs))

print_line-directives :
    (field value rest : String)
    → plain field ≡ true
    → has_char 58 field ≡ false
    → plain value ≡ true
    → robots_directives (print_line field value rest)
      ≡ record { field = lower field; value = value; raw = line field value }
        ∷ robots_directives rest
unfolding robots_directives lines_directives
print_line-directives field value rest h k p =
    rw (split_lines-line field value rest h p, line_directive-line field value h k p) refl

print_agents-directives :
    (agents : List String) (rest : String) (ds : List Directive)
    → All (λ a. plain a ≡ true) agents
    → robots_directives rest ≡ ds
    → robots_directives (print_agents agents rest) ≡ agents_directives agents ds
unfolding lower has_char is_space
print_agents-directives [] rest ds h e = e
print_agents-directives (a ∷ agents) rest ds h e =
    print_line-directives "user-agent" a (print_agents agents rest) refl refl h.0
    ∙ ap (λ x. record { field = "user-agent"; value = a; raw = line "user-agent" a } ∷ x)
        (print_agents-directives agents rest ds h.1 e)

rule-directives :
    (directive path rest : String)
    → (directive ≡ "allow") ⊎ (directive ≡ "disallow")
    → plain path ≡ true
    → robots_directives (print_line directive path rest)
      ≡ record { field = directive; value = path; raw = line directive path }
        ∷ robots_directives rest
unfolding lower has_char is_space
rule-directives directive path rest (inl e) p =
    rw e (print_line-directives "allow" path rest refl refl p)
rule-directives directive path rest (inr e) p =
    rw e (print_line-directives "disallow" path rest refl refl p)

print_rules-directives :
    (rs : List Rule) (rest : String) (ds : List Directive)
    → All IsRule rs
    → robots_directives rest ≡ ds
    → robots_directives (print_rules rs rest) ≡ rules_directives rs ds
print_rules-directives [] rest ds h e = e
print_rules-directives (r ∷ rs) rest ds h e =
    rule-directives r.directive r.path (print_rules rs rest) h.0.directive h.0.path
    ∙ ap (λ x. record { field = r.directive; value = r.path; raw = line r.directive r.path } ∷ x)
        (print_rules-directives rs rest ds h.1 e)

pub print_groups-directives :
    (gs : List Group) → All IsGroup gs → robots_directives (print_groups gs) ≡ groups_directives gs
unfolding robots_directives lines_directives split_lines
print_groups-directives [] h = refl
print_groups-directives (g ∷ gs) h =
    print_agents-directives g.user_agents (print_rules g.rules (print_groups gs))
      (rules_directives g.rules (groups_directives gs)) h.0.agents
      (print_rules-directives g.rules (print_groups gs) (groups_directives gs) h.0.rules
        (print_groups-directives gs h.1))
