-- ===== src/Runner/Run.antt =====
-- `run` of runtime/workflow_runner.py: what it does before `_execute_graph`, what it does after,
-- and the two around a schedule of the nodes. The results of `dispatch_many` are an argument.
use world_class_seo_agent_sy.Prelude.{ℕ, ◌≡◌, Bool, String, List, [], Result, ok, err, ◌>>=◌}
use world_class_seo_agent_sy.Budget.Limits.{Float, ExecutionLimits}
use world_class_seo_agent_sy.Budget.Usage.{BudgetUsage, open_budget}
use world_class_seo_agent_sy.Routing.Routes.{RouteResult}
use world_class_seo_agent_sy.Graph.Nodes.{WorkflowGraph, GraphError}
use world_class_seo_agent_sy.Graph.Build.{build_workflow_graph}
use world_class_seo_agent_sy.Graph.Validate.{validate}
use world_class_seo_agent_sy.Graph.Levels.{levels}
use world_class_seo_agent_sy.Handoff.Outputs.{AgentOutput}
use world_class_seo_agent_sy.Handoff.Receipts.{Digest}
use world_class_seo_agent_sy.Handoff.Edges.{KeyError}
use world_class_seo_agent_sy.Handoff.Reconcile.{Governance}
use world_class_seo_agent_sy.Findings.Registry.{Output}
use world_class_seo_agent_sy.Findings.Decisions.{Decision}
use world_class_seo_agent_sy.Runner.Session.{Run, ToolResult}
use world_class_seo_agent_sy.Runner.Support.{
  WorkflowStatus, record_required_tool_failures, append_risk_handoff,
}
use world_class_seo_agent_sy.Runner.Schedule.{Progress, at, Steps}
use world_class_seo_agent_sy.Runner.Reconcile.{ReconcileError, Reconciled, reconcile_outputs}
use world_class_seo_agent_sy.Runner.Finalize.{ReportError, finalize_run, report_run}

-- The exceptions after the nodes have run.
pub data RunError : Type 0 where
  unreconciled : ReconcileError → RunError
  missing_key : KeyError → RunError
  unreported : ReportError → RunError

abbrev pub or_unreconciled {ℓ} : {A : Type ℓ} → Result ReconcileError A → Result RunError A
or_unreconciled (ok a) = ok a
or_unreconciled (err e) = err (unreconciled e)

abbrev pub or_missing_key {ℓ} : {A : Type ℓ} → Result KeyError A → Result RunError A
or_missing_key (ok a) = ok a
or_missing_key (err e) = err (missing_key e)

abbrev pub or_unreported {ℓ} : {A : Type ℓ} → Result ReportError A → Result RunError A
or_unreported (ok a) = ok a
or_unreported (err e) = err (unreported e)

module _ (F : Float) where
  -- A run whose levels have not started.
  pub record Prepared : Type 0 where
    pub graph : WorkflowGraph
    pub tool_failures : List ToolResult
    pub progress : Progress F

  pub record Outcome : Type 0 where
    pub reconciled : Reconciled
    pub governance : Governance
    pub status : WorkflowStatus
    pub session : Run F
    pub budget : ExecutionLimits F × BudgetUsage F × ℕ

module _ {F : Float} where
  -- The session with the dicts and the budget of a new run.
  abbrev pub open_run : ExecutionLimits F → ℕ → Run F → Run F
  open_run limits opened session = record session {
    outputs = [];
    states = [];
    errors = [];
    budget = open_budget limits opened;
  }

  -- Until the loop over the levels.
  unfoldable pub prepare :
      RouteResult
      → String
      → ExecutionLimits F
      → ℕ
      → List ToolResult
      → Run F
      → Result GraphError (Prepared F)
  unfolding build_workflow_graph record_required_tool_failures append_risk_handoff validate levels
  prepare route business_type limits opened tools session =
      let graph = build_workflow_graph route business_type in
      validate limits.nodes limits.workflow_depth graph >>= λ u.
      let recorded = record_required_tool_failures tools (open_run limits opened session) in
      let declared = append_risk_handoff route graph recorded.1 in
      levels declared.0 >>= λ ls. ok (record {
        graph = declared.0;
        tool_failures = recorded.0;
        progress = at opened [] [] [] ls declared.1;
      })

  abbrev pub IsOver : Progress F → Type 0
  IsOver p = (p.waiting ≡ []) × (p.queued ≡ []) × (p.executing ≡ []) × (p.later ≡ [])

  module _ (digest : Digest) (read : AgentOutput → Output) (admits : Decision → Bool)
      (admits_session : Run F → Bool) where
    abbrev pub reported :
        ℕ → ℕ → Reconciled → Governance × WorkflowStatus × Run F → Result RunError (Outcome F)
    reported ended returned reconciled (governance, status, session) =
        or_unreported (report_run admits_session ended returned session) >>= λ budget. ok (record {
          reconciled = reconciled;
          governance = governance;
          status = status;
          session = session;
          budget = budget;
        })

    -- After the loop over the levels, with the readings of the clock by the two snapshots.
    unfoldable pub conclude :
        WorkflowGraph → List ToolResult → ℕ → ℕ → Run F → Result RunError (Outcome F)
    unfolding reconcile_outputs finalize_run report_run
    conclude graph tool_failures ended returned r =
        or_unreconciled (reconcile_outputs read admits r.session_id r.outputs r.states)
        >>= λ reconciled.
            or_missing_key (finalize_run digest graph tool_failures reconciled.found_conflicts r)
            >>= λ end. reported ended returned reconciled end

    -- A run from its arguments to what it returns, with any schedule of its nodes.
    pub record IsRun (route : RouteResult) (business_type : String) (limits : ExecutionLimits F)
        (opened : ℕ) (tools : List ToolResult) (session : Run F) (returned : ℕ) (o : Outcome F)
        : Type 0 where
      pub prepared : Prepared F
      pub prepares : prepare route business_type limits opened tools session ≡ ok prepared
      pub last : Progress F
      pub schedule : Steps digest prepared.progress last
      pub over : IsOver last
      pub ended : ℕ
      pub concludes : conclude prepared.graph prepared.tool_failures ended returned last.run ≡ ok o
