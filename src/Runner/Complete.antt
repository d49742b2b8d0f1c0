-- ===== src/Runner/Complete.antt =====
-- A whole run: what `prepare` hands to the schedule, and what a run that ends as COMPLETE has done.
use mathlib.Core.List.{Perm, flatten}
use world_class_seo_agent_sy.Prelude.{
  ◌≡◌, ◌∙◌, sym, refl, inl, inr, ℕ, Bool, ◌||◌, String, List, [], keep, is_empty, ◌==◌, Result, ok,
  err, ◌>>=◌, Bool-cases, Ensures, Ensures-bind, Ensures-any, Ensures-both, Ensures-after, arith,
  subst,
}
use world_class_seo_agent_sy.Budget.Limits.{Float, ExecutionLimits}
use world_class_seo_agent_sy.Budget.Usage.{open_budget, snapshot}
use world_class_seo_agent_sy.Routing.Routes.{RouteResult}
use world_class_seo_agent_sy.Graph.Nodes.{WorkflowGraph, ControlDeclaration}
use world_class_seo_agent_sy.Graph.Build.{build_workflow_graph}
use world_class_seo_agent_sy.Graph.Validate.{
  validate, validate_nodes, validate_depth, validate_deliverable,
}
use world_class_seo_agent_sy.Graph.Levels.{levels}
use world_class_seo_agent_sy.Graph.Order.{IsOrdered, levels-IsOrdered}
use world_class_seo_agent_sy.Graph.Built.{build-validate}
use world_class_seo_agent_sy.Handoff.Outputs.{AgentOutput}
use world_class_seo_agent_sy.Handoff.Receipts.{Digest}
use world_class_seo_agent_sy.Handoff.Edges.{KeyError}
use world_class_seo_agent_sy.Handoff.Reconcile.{Governance, reconcile_required_handoffs}
use world_class_seo_agent_sy.Findings.Registry.{Output}
use world_class_seo_agent_sy.Findings.Decisions.{Decision}
use world_class_seo_agent_sy.Runner.Session.{Run, ToolResult}
use world_class_seo_agent_sy.Runner.Support.{
  WorkflowStatus, tool_failed, record_required_tool_failures, append_risk_handoff,
}
use world_class_seo_agent_sy.Runner.Finalize.{finalize_run, report_run}
use world_class_seo_agent_sy.Runner.Status.{IsFinished, end-IsFinished}
use world_class_seo_agent_sy.Runner.Reconcile.{reconcile_outputs}
use world_class_seo_agent_sy.Runner.Schedule.{at}
use world_class_seo_agent_sy.Runner.Run.{
  Prepared, Outcome, or_unreconciled, or_missing_key, or_unreported, open_run, prepare, conclude,
}

or_key-Ensures :
    {A : Type 0} (P : A → Type 0) (m : Result KeyError A)
    → Ensures P (λ e. Unit {0}) m
    → Ensures P (λ e. Unit {0}) (or_missing_key m)
or_key-Ensures P (ok a) h = h
or_key-Ensures P (err e) h = tt

abbrev declaring : WorkflowGraph → List ControlDeclaration → WorkflowGraph
declaring g controls = record g { declared_control_handoffs = controls }

validate-declaring :
    (max_nodes max_depth : ℕ) (g : WorkflowGraph) (controls : List ControlDeclaration)
    → validate max_nodes max_depth (declaring g controls) ≡ validate max_nodes max_depth g
unfolding validate validate_nodes validate_depth validate_deliverable
validate-declaring max_nodes max_depth g controls = refl

module _ {F : Float} where
  -- What `append_risk_handoff` leaves alone.
  record Escalates (g : WorkflowGraph) (r : Run F) (out : WorkflowGraph × Run F) : Type 0 where
    pub graph : out.0 ≡ declaring g out.0.declared_control_handoffs
    pub states : out.1.states ≡ r.states
    pub budget : out.1.budget ≡ r.budget

  append-Escalates :
      (route : RouteResult) (g : WorkflowGraph) (r : Run F)
      → Escalates g r (append_risk_handoff route g r)
  unfolding append_risk_handoff
  append-Escalates route g r =
      elim (Bool-cases (is_empty r.open_risks || route.lead_agent == "SEO Scrummaster Agent")) [
        | inl e ↦ rw e (record { graph = refl; states = refl; budget = refl })
        | inr e ↦ rw e (record { graph = refl; states = refl; budget = refl })
      ]

  -- What a run has when its first level starts.
  pub record IsReady (route : RouteResult) (business_type : String) (limits : ExecutionLimits F)
      (opened : ℕ) (tools : List ToolResult) (p : Prepared F) : Type 0 where
    pub graph :
        p.graph
        ≡ declaring (build_workflow_graph route business_type) p.graph.declared_control_handoffs
    pub failures : p.tool_failures ≡ keep tool_failed tools
    pub states : p.progress.run.states ≡ []
    pub budget : p.progress.run.budget ≡ open_budget limits opened
    pub ordered : IsOrdered [] p.progress.later
    pub complete : Perm (flatten p.progress.later) p.graph.nodes

  declared-IsReady :
      (route : RouteResult) (business_type : String) (limits : ExecutionLimits F) (opened : ℕ)
      (tools : List ToolResult) (r : Run F) (declared : WorkflowGraph × Run F)
      → validate limits.nodes limits.workflow_depth (build_workflow_graph route business_type)
        ≡ ok tt
      → Escalates (build_workflow_graph route business_type) r declared
      → r.states ≡ []
      → r.budget ≡ open_budget limits opened
      → Ensures
          (IsReady route business_type limits opened tools)
          (λ e. ⊥)
          (levels declared.0 >>= λ ls. ok (record {
            graph = declared.0;
            tool_failures = keep tool_failed tools;
            progress = at opened [] [] [] ls declared.1;
          }))
  declared-IsReady route business_type limits opened tools r declared accepted k states budget =
      let (ls, e, ordered, complete, short) =
        levels-IsOrdered limits.nodes limits.workflow_depth declared.0 (
          subst (λ g. validate limits.nodes limits.workflow_depth g ≡ ok tt) (sym k.graph)
            (validate-declaring limits.nodes limits.workflow_depth _ _ ∙ accepted)) in
      Ensures-after (IsReady route business_type limits opened tools) (λ e. ⊥) (levels declared.0) _
        ls e
        (record {
          graph = k.graph;
          failures = refl;
          states = k.states ∙ states;
          budget = k.budget ∙ budget;
          ordered = ordered;
          complete = complete;
        })

  pub prepare_lem :
      (route : RouteResult) (business_type : String) (limits : ExecutionLimits F) (opened : ℕ)
      (tools : List ToolResult) (session : Run F)
      → validate limits.nodes limits.workflow_depth (build_workflow_graph route business_type)
        ≡ ok tt
      → Ensures
          (IsReady route business_type limits opened tools)
          (λ e. ⊥)
          (prepare route business_type limits opened tools session)
  unfolding prepare record_required_tool_failures
  prepare_lem route business_type limits opened tools session accepted =
      let recorded = record_required_tool_failures tools (open_run limits opened session) in
      Ensures-after (IsReady route business_type limits opened tools) (λ e. ⊥)
        (validate limits.nodes limits.workflow_depth (build_workflow_graph route business_type)) _
        tt accepted
        (declared-IsReady route business_type limits opened tools recorded.1
          (append_risk_handoff route (build_workflow_graph route business_type) recorded.1) accepted
          (append-Escalates route (build_workflow_graph route business_type) recorded.1) refl refl)

  -- With the limits on nodes and depth that the runner takes by default, the beginning of a run does
  -- not fail, whatever the route, the session and the results of the tools: the levels hold the nodes
  -- of the graph that is built for the route, each once and behind its dependencies, no node has a
  -- state, the budget is unused, and the failures are those of the required tools.
  pub prepare-IsReady :
      (route : RouteResult) (business_type : String) (limits : ExecutionLimits F) (opened : ℕ)
      (tools : List ToolResult) (session : Run F)
      → limits.nodes ≡ 20
      → limits.workflow_depth ≡ 5
      → Ensures
          (IsReady route business_type limits opened tools)
          (λ e. ⊥)
          (prepare route business_type limits opened tools session)
  prepare-IsReady route business_type limits opened tools session nodes depth =
      prepare_lem route business_type limits opened tools session
        (rw (nodes, depth) (build-validate route business_type))

module _ {F : Float} (digest : Digest) where
  -- Of the run that it is given, the end changes the handoffs.
  abbrev Keeps : Run F → Governance × WorkflowStatus × Run F → Type 0
  Keeps r end = end.2 ≡ record r { handoffs = end.2.handoffs }

  finalize-Keeps :
      {Conflict : Type 0} (g : WorkflowGraph) (tool_failures : List ToolResult)
      (conflicts : List Conflict) (r : Run F)
      → Ensures (Keeps r) (λ e. Unit {0}) (finalize_run digest g tool_failures conflicts r)
  unfolding finalize_run
  finalize-Keeps g tool_failures conflicts r =
      Ensures-bind (λ governance. Unit {0}) (Keeps r) (λ e. Unit {0})
        (reconcile_required_handoffs digest r.session_id g r.states r.outputs r.handoffs) _
        (Ensures-any _) (λ governance u. refl)

  module _ (read : AgentOutput → Output) (admits : Decision → Bool)
      (admits_session : Run F → Bool) where
    pub record Concludes (g : WorkflowGraph) (tool_failures : List ToolResult) (returned : ℕ)
        (r : Run F) (o : Outcome F) : Type 0 where
      pub finished :
          o.status ≡ WorkflowStatus.complete
          → IsFinished digest g tool_failures o.reconciled.found_conflicts r o.session
      pub kept : o.session ≡ record r { handoffs = o.session.handoffs }
      pub in_time : snapshot returned o.session.budget ≡ ok o.budget

    report-snapshot :
        (ended returned : ℕ) (r : Run F)
        → Ensures
            (λ budget. snapshot returned r.budget ≡ ok budget)
            (λ e. Unit {0})
            (or_unreported (report_run admits_session ended returned r))
    unfolding report_run
    report-snapshot ended returned r = ground arith

    pub conclude-Concludes :
        (g : WorkflowGraph) (tool_failures : List ToolResult) (ended returned : ℕ) (r : Run F)
        → Ensures
            (Concludes g tool_failures returned r)
            (λ e. Unit {0})
            (conclude digest read admits admits_session g tool_failures ended returned r)
    unfolding conclude
    conclude-Concludes g tool_failures ended returned r =
        Ensures-bind (λ reconciled. Unit {0}) (Concludes g tool_failures returned r) (λ e. Unit {0})
          (or_unreconciled (reconcile_outputs read admits r.session_id r.outputs r.states)) _
          (Ensures-any _)
          (λ reconciled u.
            let Ends : Governance × WorkflowStatus × Run F → Type 0 = λ end.
              (end.1 ≡ WorkflowStatus.complete
                → IsFinished digest g tool_failures reconciled.found_conflicts r end.2)
              × Keeps r end in
            let end = finalize_run digest g tool_failures reconciled.found_conflicts r in
            Ensures-bind Ends (Concludes g tool_failures returned r) (λ e. Unit {0})
              (or_missing_key end) _
              (or_key-Ensures Ends end (
                Ensures-both _ (Keeps r) end
                  (end-IsFinished digest g tool_failures reconciled.found_conflicts r)
                  (finalize-Keeps g tool_failures reconciled.found_conflicts r)))
              (λ ended_run h.
                Ensures-bind (λ budget. snapshot returned ended_run.2.budget ≡ ok budget)
                  (Concludes g tool_failures returned r) (λ e. Unit {0})
                  (or_unreported (report_run admits_session ended returned ended_run.2)) _
                  (report-snapshot ended returned ended_run.2)
                  (λ budget e. record { finished = h.0; kept = h.1; in_time = e })))
