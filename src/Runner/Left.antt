-- ===== src/Runner/Left.antt =====
-- What is left to do of a run, and that each step but a reservation of a model call does some of it.
use world_class_seo_agent_sy.Prelude.{
  ◌≡◌, refl, ℕ, suc, ◌+◌, ◌*◌, ◌≤◌, Bool, false, not, ◌||◌, String, List, [], ◌∷◌, ◌++◌, length,
  length-append, contains, lookup, ◌==◌, arith,
}
use world_class_seo_agent_sy.Budget.Limits.{Float}
use world_class_seo_agent_sy.Graph.Nodes.{WorkflowNode, ids}
use world_class_seo_agent_sy.Handoff.Outputs.{AgentOutput}
use world_class_seo_agent_sy.Handoff.Receipts.{Digest}
use world_class_seo_agent_sy.Runner.Session.{Run, AgentResult}
use world_class_seo_agent_sy.Runner.Support.{is_none}
use world_class_seo_agent_sy.Runner.Schedule.{
  Progress, Step, next_level, refuse, start, acquire, charge, finish, Steps, stay, step,
}

-- The steps that the levels still take: one to begin, and three for each node.
abbrev pub levels_left : List (List WorkflowNode) → ℕ
levels_left [] = 0
levels_left (level ∷ levels) = 1 + 3 * length level + levels_left levels

abbrev pub steps_left : {F : Float} → Progress F → ℕ
steps_left p = 3 * length p.waiting + 2 * length p.queued + length p.executing + levels_left p.later

abbrev pub in_levels : List (List WorkflowNode) → String → Bool
in_levels [] k = false
in_levels (level ∷ levels) k = contains (ids level) k || in_levels levels k

-- The id is of a node that has not ended.
abbrev pub is_left : {F : Float} → Progress F → String → Bool
is_left p k =
    contains (ids p.waiting) k
    || contains (ids p.queued) k
    || contains (ids p.executing) k
    || in_levels p.later k

abbrev pub has_state : {F : Float} → Run F → String → Bool
has_state r k = not (is_none (lookup k r.states))

pub contains-middle :
    (before after : List WorkflowNode) (node : WorkflowNode) (k : String)
    → contains (ids (before ++ node ∷ after)) k
      ≡ (node.id == k || contains (ids (before ++ after)) k)
contains-middle [] after node k = refl
contains-middle (n ∷ before) after node k = ground (arith, contains-middle before after node k)

pub length-middle :
    (before after : List WorkflowNode) (node : WorkflowNode)
    → length (before ++ node ∷ after) ≡ suc (length (before ++ after))
length-middle before after node =
    omega (arith, length-append before (node ∷ after), length-append before after)

module _ {F : Float} (digest : Digest) where
  -- One for each step but the reservations of model calls.
  abbrev pub weight : (p q : Progress F) → Step digest p q → ℕ
  weight p q (next_level clock level later r) = 1
  weight p q (refuse clock now before after queued executing later node r r' after_clock e) = 1
  weight p q (start clock now before after queued executing later node r r' after_clock e) = 1
  weight p q (acquire clock waiting before after executing later node r free) = 1
  weight p q (charge clock now waiting queued executing later r correction client after_clock) = 0
  weight p q (finish clock before after waiting queued later node r date output result) = 1

  abbrev pub advances : (p q : Progress F) → Steps digest p q → ℕ
  advances p q (stay same) = 0
  advances p q (step first m last one more) = weight p m one + advances m q more

  -- A step that reads the clock as given and takes the given answer of the executor, and is no
  -- reservation of a model call.
  abbrev pub IsWith :
      ℕ → String → AgentOutput → AgentResult → (p q : Progress F) → Step digest p q → Type 0
  IsWith t d o a p q (next_level clock level later r) = Unit {0}
  IsWith t d o a p q (refuse clock now before after queued executing later node r r' c e) = now ≡ t
  IsWith t d o a p q (start clock now before after queued executing later node r r' c e) = now ≡ t
  IsWith t d o a p q (acquire clock waiting before after executing later node r free) = Unit {0}
  IsWith t d o a p q (charge clock now waiting queued executing later r correction client c) = ⊥
  IsWith t d o a p q (finish clock before after waiting queued later node r date output result) =
      (date ≡ d) × (output ≡ o) × (result ≡ a)

  abbrev pub GoesOn : ℕ → String → AgentOutput → AgentResult → Progress F → Type 0
  GoesOn now date output result p =
      (q : Progress F) × (one : Step digest p q) × IsWith now date output result p q one

  Step-steps_left :
      (p q : Progress F) (one : Step digest p q) → weight p q one + steps_left q ≤ steps_left p
  Step-steps_left p q (next_level clock level later r) = omega arith
  Step-steps_left p q (refuse clock now before after queued executing later node r r' c e) =
      omega (arith, length-middle before after node)
  Step-steps_left p q (start clock now before after queued executing later node r r' c e) =
      omega (arith, length-middle before after node)
  Step-steps_left p q (acquire clock waiting before after executing later node r free) =
      omega (arith, length-middle before after node)
  Step-steps_left p q (charge clock now waiting queued executing later r correction client c) =
      omega arith
  Step-steps_left p q (finish clock before after waiting queued later node r date output result) =
      omega (arith, length-middle before after node)

  pub Steps-steps_left :
      (p q : Progress F) (steps : Steps digest p q)
      → advances p q steps + steps_left q ≤ steps_left p
  Steps-steps_left p q (stay same) = omega arith
  Steps-steps_left p q (step first m last one more) =
      omega (arith, Step-steps_left p m one, Steps-steps_left m q more)
