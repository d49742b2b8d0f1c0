-- ===== src/Runner/Finalize.antt =====
-- `_finalize_run` of runtime/workflow_runner.py up to the status; the rest of it is `report_run`, which
-- leaves out the payload but for the snapshots of the budget.
use world_class_seo_agent_sy.Prelude.{
  ℕ, Bool, true, false, List, any, Result, ok, err, ◌>>=◌, if◌then◌else◌,
}
use world_class_seo_agent_sy.Budget.Limits.{Float, ExecutionLimits}
use world_class_seo_agent_sy.Budget.Usage.{BudgetExceeded, BudgetUsage, snapshot}
use world_class_seo_agent_sy.Graph.Nodes.{WorkflowGraph}
use world_class_seo_agent_sy.Handoff.Receipts.{Digest}
use world_class_seo_agent_sy.Handoff.Edges.{NodeState, States, KeyError}
use world_class_seo_agent_sy.Handoff.Reconcile.{Governance, reconcile_required_handoffs}
use world_class_seo_agent_sy.Runner.Session.{Run, ToolResult}
use world_class_seo_agent_sy.Runner.Support.{final_output, WorkflowStatus, workflow_status}

abbrev pub is_synthetic : NodeState → Bool
is_synthetic NodeState.synthetic = true
is_synthetic _ = false

-- `"SYNTHETIC" in states.values()`
abbrev pub has_synthetic : States → Bool
has_synthetic states = any (λ entry. is_synthetic entry.1) states

-- The exceptions behind the status: the runtime has passed its limit, or the session is refused by its
-- schema.
pub data ReportError : Type 0 where
  over_time : BudgetExceeded → ReportError
  session_refused : ReportError

abbrev pub or_over_time {ℓ} : {A : Type ℓ} → Result BudgetExceeded A → Result ReportError A
or_over_time (ok a) = ok a
or_over_time (err e) = err (over_time e)

module _ {ℓ} {F : Float} {Conflict : Type ℓ} (digest : Digest) where
  -- The report on the handoffs, the status, and the run with the handoffs as they are left.
  unfoldable pub finalize_run :
      WorkflowGraph
      → List ToolResult
      → List Conflict
      → Run F
      → Result KeyError (Governance × WorkflowStatus × Run F)
  finalize_run g tool_failures conflicts r =
      reconcile_required_handoffs digest r.session_id g r.states r.outputs r.handoffs
      >>= λ governance.
          let output = final_output g r.outputs r.states in
          ok (
            governance,
            workflow_status g r.states output tool_failures conflicts (has_synthetic r.states)
                governance.unresolved,
            record r { handoffs = governance.handoffs },
          )

module _ {F : Float} (admits_session : Run F → Bool) where
  -- `budget.snapshot()`, the check of the session, and `run_payload` with its own `budget.snapshot()`.
  unfoldable pub report_run :
      ℕ → ℕ → Run F → Result ReportError (ExecutionLimits F × BudgetUsage F × ℕ)
  unfolding snapshot
  report_run ended returned r = or_over_time (snapshot ended r.budget) >>= λ usage.
      if admits_session r then or_over_time (snapshot returned r.budget) else err session_refused
