-- ===== src/Runner/Sound.antt =====
-- What a run that ends as COMPLETE has done, from its arguments to what it returns.
use world_class_seo_agent_sy.Prelude.{
  ◌≡◌, ◌∙◌, sym, ap, ℕ, ◌-◌, ◌*◌, ◌≤◌, Bool, false, String, some, List, [], ◌∷◌, keep, lookup, ok,
  All, All-map, Ensures-ok, subst, Bool-cases, inl, inr, arith,
}
use world_class_seo_agent_sy.Budget.Limits.{Float, RawLimits, ExecutionLimits, post_init}
use world_class_seo_agent_sy.Budget.Usage.{RunBudget, BudgetUsage, snapshot, check_runtime}
use world_class_seo_agent_sy.Routing.Routes.{RouteResult}
use world_class_seo_agent_sy.State.{HandoffStatus}
use world_class_seo_agent_sy.Graph.Build.{build_workflow_graph}
use world_class_seo_agent_sy.Graph.Validate.{validate}
use world_class_seo_agent_sy.Handoff.Outputs.{AgentOutput}
use world_class_seo_agent_sy.Handoff.Receipts.{Digest}
use world_class_seo_agent_sy.Handoff.Edges.{NodeState}
use world_class_seo_agent_sy.Findings.Registry.{Output}
use world_class_seo_agent_sy.Findings.Decisions.{Decision}
use world_class_seo_agent_sy.Runner.Session.{Run, ToolResult}
use world_class_seo_agent_sy.Runner.Support.{WorkflowStatus, tool_failed, is_none, final_output}
use world_class_seo_agent_sy.Runner.Charges.{IsKept, Steps-budget}
use world_class_seo_agent_sy.Runner.Run.{Prepared, Outcome, prepare, conclude, IsRun}
use world_class_seo_agent_sy.Runner.Complete.{IsReady, prepare_lem, Concludes, conclude-Concludes}

none_kept : {A : Type 0} (p : A → Bool) (xs : List A) → keep p xs ≡ [] → All (λ x. p x ≡ false) xs
none_kept p [] e = tt
none_kept p (x ∷ xs) e = elim (Bool-cases (p x)) [
  | inl t ↦ absurd (ground (arith, e, t))
  | inr f ↦ (f, none_kept p xs (ground (arith, e, f)))
]

module _ {F : Float} where
  -- What a run that reports COMPLETE has done, read from its arguments and its outcome.
  pub record IsSound (route : RouteResult) (business_type : String) (limits : ExecutionLimits F)
      (opened : ℕ) (tools : List ToolResult) (returned : ℕ) (o : Outcome F) : Type 0 where
    pub nodes :
        All
          (λ n. lookup n.id o.session.states ≡ some NodeState.complete)
          (build_workflow_graph route business_type).nodes
    pub delivered :
        is_none (
          final_output
            (build_workflow_graph route business_type)
            o.session.outputs
            o.session.states)
        ≡ false
    pub full : (build_workflow_graph route business_type).capacity_exclusions ≡ []
    pub tools_usable : All (λ t. tool_failed t ≡ false) tools
    pub agreed : o.reconciled.found_conflicts ≡ []
    pub handoffs : All (λ h. h.status ≡ HandoffStatus.consumed) o.session.handoffs
    pub budget : IsKept limits opened o.session.budget
    pub usage : o.budget ≡ (limits, o.session.budget.usage, returned - opened)
    pub in_time : returned - opened ≤ limits.runtime_seconds * 1000

  snapshot-timed :
      (limits : ExecutionLimits F) (opened returned : ℕ) (b : RunBudget F)
      (usage : ExecutionLimits F × BudgetUsage F × ℕ)
      → IsKept limits opened b
      → snapshot returned b ≡ ok usage
      → (usage ≡ (limits, b.usage, returned - opened))
        × (returned - opened ≤ limits.runtime_seconds * 1000)
  unfolding snapshot check_runtime
  snapshot-timed limits opened returned b usage k e =
      let same = k.same in let since = k.since in ground (arith, e, same, since)

  module _ (digest : Digest) (read : AgentOutput → Output) (admits : Decision → Bool)
      (admits_session : Run F → Bool) where
    finished-IsSound :
        (route : RouteResult) (business_type : String) (limits : ExecutionLimits F) (opened : ℕ)
        (tools : List ToolResult) (returned : ℕ) (p : Prepared F) (r : Run F) (o : Outcome F)
        → IsReady route business_type limits opened tools p
        → IsKept limits opened r.budget
        → Concludes digest read admits admits_session p.graph p.tool_failures returned r o
        → o.status ≡ WorkflowStatus.complete
        → IsSound route business_type limits opened tools returned o
    unfolding final_output
    finished-IsSound route business_type limits opened tools returned p r o ready kept ended done =
        let same = ended.kept in
        let done = ended.finished done in
        let spent = subst (λ s. IsKept limits opened s.budget) (sym same) kept in
        let timed =
          snapshot-timed limits opened returned o.session.budget o.budget spent ended.in_time in
        record {
          nodes =
              All-map (λ n e. ap (λ s. lookup n.id s.states) same ∙ e)
                (build_workflow_graph route business_type).nodes
                (subst (λ g. All (λ n. lookup n.id r.states ≡ some NodeState.complete) g.nodes)
                  ready.graph done.nodes);
          delivered =
              ap
                (λ s.
                  is_none
                    (final_output (build_workflow_graph route business_type) s.outputs s.states))
                same
              ∙ subst (λ g. is_none (final_output g r.outputs r.states) ≡ false) ready.graph
                  done.delivered;
          full = subst (λ g. g.capacity_exclusions ≡ []) ready.graph done.full;
          tools_usable = none_kept tool_failed tools (sym ready.failures ∙ done.tools);
          agreed = done.agreed;
          handoffs = done.handoffs;
          budget = spent;
          usage = timed.0;
          in_time = timed.1;
        }

    -- A run with accepted limits on a route whose graph these limits admit, under any schedule of its
    -- nodes and any outputs, clients and readings of the clock, reports COMPLETE only if every node of
    -- the graph that is built for the route ended as COMPLETE, the deliverable has its output, no agent
    -- was left out for capacity, no required tool failed, no findings are in conflict, every handoff of
    -- the session is consumed, the budget kept within the limits, its usage is reported as it is, and
    -- the time from the start to the report is within the limit.
    pub run-IsSound :
        (raw : RawLimits F) (limits : ExecutionLimits F) (route : RouteResult)
        (business_type : String) (opened : ℕ) (tools : List ToolResult) (session : Run F)
        (returned : ℕ) (o : Outcome F)
        → post_init raw ≡ ok limits
        → validate limits.nodes limits.workflow_depth (build_workflow_graph route business_type)
          ≡ ok tt
        → IsRun digest read admits admits_session route business_type limits opened tools session
            returned o
        → o.status ≡ WorkflowStatus.complete
        → IsSound route business_type limits opened tools returned o
    run-IsSound raw limits route business_type opened tools session returned o valid accepted run
          done =
        let p = run.prepared in
        let r = run.last.run in
        let ready =
          Ensures-ok (IsReady route business_type limits opened tools) (λ e. ⊥)
            (prepare route business_type limits opened tools session) p run.prepares
            (prepare_lem route business_type limits opened tools session accepted) in
        let ended =
          Ensures-ok
            (Concludes digest read admits admits_session p.graph p.tool_failures returned r)
            (λ e. Unit {0})
            (conclude digest read admits admits_session p.graph p.tool_failures run.ended returned
              r)
            o run.concludes
            (conclude-Concludes digest read admits admits_session p.graph p.tool_failures run.ended
              returned r) in
        finished-IsSound route business_type limits opened tools returned p r o ready
          (Steps-budget raw limits opened digest p.progress run.last valid ready.budget
            run.schedule)
          ended done
