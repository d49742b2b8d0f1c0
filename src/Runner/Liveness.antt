-- ===== src/Runner/Liveness.antt =====
-- That the schedules of a run end: `_execute_graph` returns if the executors do.
use world_class_seo_agent_sy.Prelude.{
  ◌≡◌, ◌⊎◌, inl, inr, refl, ℕ, ◌+◌, ◌≤◌, Bool, true, false, ◌||◌, String, List, [], ◌∷◌, length,
  Result-cases, ok, Ensures, subst, arith,
}
use world_class_seo_agent_sy.Budget.Limits.{Float, RawLimits, ExecutionLimits, post_init}
use world_class_seo_agent_sy.Budget.Usage.{open_budget}
use world_class_seo_agent_sy.Graph.Nodes.{WorkflowNode}
use world_class_seo_agent_sy.Handoff.Outputs.{AgentOutput}
use world_class_seo_agent_sy.Handoff.Receipts.{Digest}
use world_class_seo_agent_sy.Runner.Session.{Run, AgentResult}
use world_class_seo_agent_sy.Runner.Nodes.{start_node}
use world_class_seo_agent_sy.Runner.Schedule.{
  Progress, at, next_level, refuse, start, acquire, finish, Steps,
}
use world_class_seo_agent_sy.Runner.Run.{IsOver}
use world_class_seo_agent_sy.Runner.Outputs.{HasOutputs, start-Starts, Steps-HasOutputs}
use world_class_seo_agent_sy.Runner.Charges.{IsKept, Steps-IsKept}
use world_class_seo_agent_sy.Budget.Laws.{post_init_iff}
use world_class_seo_agent_sy.Budget.Runs.{open_budget-IsWithin}
use world_class_seo_agent_sy.Runner.Left.{
  steps_left, is_left, has_state, advances, GoesOn, Steps-steps_left,
}
use world_class_seo_agent_sy.Runner.Tracked.{Steps-tracked, Steps-executing}

module _ {F : Float} (digest : Digest) where
  started-GoesOn :
      (clock now : ℕ) (nodes queued executing : List WorkflowNode)
      (later : List (List WorkflowNode)) (node : WorkflowNode) (r r' : Run F) (started : Bool)
      (date : String) (output : AgentOutput) (result : AgentResult)
      → clock ≤ now
      → start_node now node r ≡ ok (started, r')
      → GoesOn digest now date output result (at clock (node ∷ nodes) queued executing later r)
  started-GoesOn clock now nodes queued executing later node r r' true date output result c e =
      (_, start clock now [] nodes queued executing later node r r' c e, refl)
  started-GoesOn clock now nodes queued executing later node r r' false date output result c e =
      (_, refuse clock now [] nodes queued executing later node r r' c e, refl)

  begins-GoesOn :
      (clock now : ℕ) (nodes queued executing : List WorkflowNode)
      (later : List (List WorkflowNode)) (node : WorkflowNode) (r : Run F) (date : String)
      (output : AgentOutput) (result : AgentResult)
      → clock ≤ now
      → HasOutputs r
      → GoesOn digest now date output result (at clock (node ∷ nodes) queued executing later r)
  begins-GoesOn clock now nodes queued executing later node r date output result c h =
      elim (Result-cases (start_node now node r)) [
        | inl ((started, r'), e) ↦
            started-GoesOn clock now nodes queued executing later node r r' started date output
              result c e
        | inr (x, e) ↦ absurd (subst (Ensures _ (λ e. ⊥)) e (start-Starts now node r h))
      ]

  -- A node begins, a node of the queue gets a place, which is free if none runs, a node that runs
  -- ends, or the next level begins.
  IsOver-or_GoesOn :
      (clock now : ℕ) (waiting queued executing : List WorkflowNode)
      (later : List (List WorkflowNode)) (r : Run F) (date : String) (output : AgentOutput)
      (result : AgentResult)
      → clock ≤ now
      → 1 ≤ r.budget.limits.parallel_agents
      → HasOutputs r
      → IsOver (at clock waiting queued executing later r)
        ⊎ GoesOn digest now date output result (at clock waiting queued executing later r)
  IsOver-or_GoesOn clock now (node ∷ nodes) queued executing later r date output result c places h =
      inr (begins-GoesOn clock now nodes queued executing later node r date output result c h)
  IsOver-or_GoesOn clock now [] queued (node ∷ nodes) later r date output result c places h =
      inr (_, finish clock [] nodes [] queued later node r date output result, (refl, refl, refl))
  IsOver-or_GoesOn clock now [] (node ∷ nodes) [] later r date output result c places h =
      inr (_, acquire clock [] [] nodes [] later node r places, tt)
  IsOver-or_GoesOn clock now [] [] [] (level ∷ levels) r date output result c places h =
      inr (_, next_level clock level levels r, tt)
  IsOver-or_GoesOn clock now [] [] [] [] r date output result c places h =
      inl (refl, refl, refl, refl)

  -- What holds wherever a schedule has come to.
  pub record IsLive (limits : ExecutionLimits F) (p q : Progress F) (steps : Steps digest p q)
      (now : ℕ) (date : String) (output : AgentOutput) (result : AgentResult) : Type 0 where
    pub few : length q.executing ≤ limits.parallel_agents
    pub bounded : advances digest p q steps + steps_left q ≤ steps_left p
    pub tracked : (k : String) → is_left p k ≡ true → (is_left q k || has_state q.run k) ≡ true
    pub proceeds : IsOver q ⊎ GoesOn digest now date output result q

  post_init-parallel_agents :
      (raw : RawLimits F) (limits : ExecutionLimits F)
      → post_init raw ≡ ok limits
      → 1 ≤ limits.parallel_agents
  post_init-parallel_agents raw limits e = ((post_init_iff raw limits).0 e).parallel_agents_pos

  -- However the nodes of a run interleave that begins with accepted limits, no state and no node that
  -- runs, at most max_parallel_agents nodes run at once; the steps that are no reservation of a model
  -- call number at most three for each node and one for each level, those that are left included;
  -- each node that was to be run is still to be run or has a state; and until all is done, whatever
  -- the clock reads next and the executor returns, some such step can be taken.
  pub Steps-IsLive :
      (raw : RawLimits F) (limits : ExecutionLimits F) (opened : ℕ) (p q : Progress F)
      (steps : Steps digest p q) (now : ℕ) (date : String) (output : AgentOutput)
      (result : AgentResult)
      → post_init raw ≡ ok limits
      → p.run.budget ≡ open_budget limits opened
      → p.run.states ≡ []
      → p.executing ≡ []
      → q.clock ≤ now
      → IsLive limits p q steps now date output result
  Steps-IsLive raw limits opened p q steps now date output result valid budget states idle c =
      let opens : IsKept limits opened p.run.budget = rw budget (record {
        within = open_budget-IsWithin raw limits opened valid;
        same = refl;
        since = refl;
      }) in
      let same = (Steps-IsKept limits opened digest p q steps opens).same in
      record {
        few = Steps-executing digest limits opened p q steps opens (rw idle (omega arith));
        bounded = Steps-steps_left digest p q steps;
        tracked = λ k left. Steps-tracked digest p q k steps (ground (arith, left));
        proceeds =
            IsOver-or_GoesOn q.clock now q.waiting q.queued q.executing q.later q.run date output
              result c (rw same (post_init-parallel_agents raw limits valid))
              (Steps-HasOutputs digest p q steps (λ node_id k. absurd (ground (arith, states, k))));
      }
