-- ===== src/Robots/Printed.antt =====
-- Groups written as a robots.txt are parsed back.
use Prim.Native.String.{String}
use world_class_seo_agent_sy.Prelude.{
  ◌≡◌, ◌⊎◌, inl, inr, refl, ap, ◌∙◌, false, List, [], ◌∷◌, ◌++◌, append-nil, append_assoc, any,
  is_empty, texts_eq, ok, All, arith,
}
use world_class_seo_agent_sy.Robots.Policy.{Rule, Group, validate_robots_text, new_policy}
use world_class_seo_agent_sy.Robots.Parse.{
  Directive, robots_directives, Reading, flush, read_directive, read_directives, extend_bucket,
  merge_groups, nothing_read, parse_robots,
}
use world_class_seo_agent_sy.Robots.Lines.{line}
use world_class_seo_agent_sy.Robots.Print.{
  print_groups, IsRule, IsGroup, Distinct, agents_directives, rules_directives, groups_directives,
  print_groups-directives,
}

-- The state of the loop over texts that only hold groups.
abbrev reading : List Group → List String → List Rule → Reading
reading groups agents rules = record {
  groups = groups;
  agents = agents;
  rules = rules;
  sitemaps = [];
  unknown = [];
}

agents-read :
    (groups : List Group) (agents more : List String) (ds : List Directive)
    → read_directives (agents_directives more ds) (reading groups agents [])
      ≡ read_directives ds (reading groups (agents ++ more) [])
unfolding read_directives read_directive
agents-read groups agents [] ds = rw (append-nil agents) refl
agents-read groups agents (a ∷ more) ds =
    agents-read groups (agents ++ a ∷ []) more ds
    ∙ ap (λ as'. read_directives ds (reading groups as' [])) (append_assoc agents (a ∷ []) more)

rule-read :
    (groups : List Group) (agents : List String) (rules : List Rule) (directive path raw : String)
    → (directive ≡ "allow") ⊎ (directive ≡ "disallow")
    → is_empty agents ≡ false
    → read_directive
        (record { field = directive; value = path; raw = raw })
        (reading groups agents rules)
      ≡ reading groups agents (rules ++ record { directive = directive; path = path } ∷ [])
unfolding read_directive
rule-read groups agents rules directive path raw (inl e) h = rw (e, h) refl
rule-read groups agents rules directive path raw (inr e) h = rw (e, h) refl

rules-read :
    (groups : List Group) (agents : List String) (rules more : List Rule) (ds : List Directive)
    → All IsRule more
    → is_empty agents ≡ false
    → read_directives (rules_directives more ds) (reading groups agents rules)
      ≡ read_directives ds (reading groups agents (rules ++ more))
unfolding read_directives
rules-read groups agents rules [] ds h k = rw (append-nil rules) refl
rules-read groups agents rules (r ∷ more) ds h k =
    ap (read_directives (rules_directives more ds))
      (rule-read groups agents rules r.directive r.path (line r.directive r.path) h.0.directive k)
    ∙ rules-read groups agents (rules ++ r ∷ []) more ds h.1 k
    ∙ ap (λ rs. read_directives ds (reading groups agents rs)) (append_assoc rules (r ∷ []) more)

agent-read :
    (groups : List Group) (agents : List String) (rules : List Rule) (a raw : String)
    → (agents ≡ []) × (rules ≡ []) ⊎ (is_empty agents ≡ false) × (is_empty rules ≡ false)
    → read_directive
        (record { field = "user-agent"; value = a; raw = raw })
        (reading groups agents rules)
      ≡ reading (flush (reading groups agents rules)).groups (a ∷ []) []
unfolding read_directive
agent-read groups agents rules a raw (inl h) = rw (h.0, h.1) refl
agent-read groups agents rules a raw (inr h) = rw h.1 refl

-- A group whose first agent stands before directives that leave the groups read so far.
group-read :
    (groups : List Group) (agents : List String) (rules : List Rule) (g : Group)
    (ds : List Directive)
    → (agents ≡ []) × (rules ≡ []) ⊎ (is_empty agents ≡ false) × (is_empty rules ≡ false)
    → IsGroup g
    → read_directives
        (agents_directives g.user_agents (rules_directives g.rules ds))
        (reading groups agents rules)
      ≡ read_directives ds
          (reading (flush (reading groups agents rules)).groups g.user_agents g.rules)
unfolding read_directives
group-read groups agents rules g ds h k = first g.user_agents g.rules k.some_agent k.rules
  where
    first :
        (as' : List String) (rs : List Rule)
        → is_empty as' ≡ false
        → All IsRule rs
        → read_directives
            (agents_directives as' (rules_directives rs ds))
            (reading groups agents rules)
          ≡ read_directives ds (reading (flush (reading groups agents rules)).groups as' rs)
    first [] rs e a = cc
    first (a ∷ as') rs e all_rules =
        ap (read_directives (agents_directives as' (rules_directives rs ds)))
          (agent-read groups agents rules a (line "user-agent" a) h)
        ∙ agents-read (flush (reading groups agents rules)).groups (a ∷ []) as'
            (rules_directives rs ds)
        ∙ rules-read (flush (reading groups agents rules)).groups (a ∷ as') [] rs ds all_rules refl

flush-group :
    (groups : List Group) (g : Group)
    → is_empty g.user_agents ≡ false
    → (flush (reading groups g.user_agents g.rules)).groups ≡ groups ++ g ∷ []
unfolding flush
flush-group groups g h = rw h refl

groups-read :
    (groups : List Group) (agents : List String) (rules : List Rule) (gs : List Group)
    → (agents ≡ []) × (rules ≡ []) ⊎ (is_empty agents ≡ false) × (is_empty rules ≡ false)
    → All IsGroup gs
    → flush (read_directives (groups_directives gs) (reading groups agents rules))
      ≡ reading ((flush (reading groups agents rules)).groups ++ gs) [] []
unfolding read_directives
groups-read groups agents rules [] h k = unfold flush in rw (append-nil _) refl
groups-read groups agents rules (g ∷ gs) h k =
    ap flush (group-read groups agents rules g (groups_directives gs) h k.0)
    ∙ groups-read (flush (reading groups agents rules)).groups g.user_agents g.rules gs
        (inr (k.0.some_agent, k.0.some_rule)) k.1
    ∙ ap (λ (x : List Group). reading x [] [])
        (ap (λ (x : List Group). x ++ gs)
            (flush-group (flush (reading groups agents rules)).groups g k.0.some_agent)
          ∙ append_assoc (flush (reading groups agents rules)).groups (g ∷ []) gs)

extend_bucket-new :
    (key : List String) (rules : List Rule) (seen : List Group)
    → any (λ s. texts_eq s.user_agents key) seen ≡ false
    → extend_bucket key rules seen ≡ seen ++ record { user_agents = key; rules = rules } ∷ []
unfolding extend_bucket
extend_bucket-new key rules [] h = refl
extend_bucket-new key rules (s ∷ seen) h =
    ground (arith, extend_bucket-new key rules seen (ground arith))

merge_groups-Distinct :
    (seen gs : List Group) → All IsGroup gs → Distinct seen gs → merge_groups seen gs ≡ seen ++ gs
unfolding merge_groups
merge_groups-Distinct seen [] h d = rw (append-nil seen) refl
merge_groups-Distinct seen (g ∷ gs) h d =
    ap (λ key. merge_groups (extend_bucket key g.rules seen) gs) h.0.sorted
    ∙ ap (λ merged. merge_groups merged gs) (extend_bucket-new g.user_agents g.rules seen d.0)
    ∙ merge_groups-Distinct (seen ++ g ∷ []) gs h.1 d.1
    ∙ append_assoc seen (g ∷ []) gs

print_groups-read :
    (gs : List Group)
    → All IsGroup gs
    → flush (read_directives (robots_directives (print_groups gs)) nothing_read) ≡ reading gs [] []
unfolding flush
print_groups-read gs h =
    ap (λ ds. flush (read_directives ds nothing_read)) (print_groups-directives gs h)
    ∙ groups-read [] [] [] gs (inl (refl, refl)) h

-- Distinct groups, each with agents and rules, its agents in lower case and in order, and with no
-- white space or comment in a value, are read back from their robots.txt, if the text and the
-- policy are within the limits.
pub parse_robots-print :
    (gs : List Group)
    → All IsGroup gs
    → Distinct [] gs
    → validate_robots_text (print_groups gs) ≡ ok tt
    → new_policy gs ≡ ok gs
    → parse_robots (print_groups gs) ≡ ok (record { groups = gs; sitemaps = []; unknown = [] })
unfolding parse_robots
parse_robots-print gs h d v n =
    rw (v, print_groups-read gs h, merge_groups-Distinct [] gs h d, n) refl
