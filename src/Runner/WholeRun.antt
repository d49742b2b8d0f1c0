-- ===== src/Runner/WholeRun.antt =====
-- A whole run on the route of the report agent with low confidence: the lead node, the Scrummaster's
-- node behind it, and the handoff between them, which the Scrummaster challenges.
use world_class_seo_agent_sy.Prelude.{
  ◌≡◌, refl, Bool, true, false, some, [], ◌∷◌, Result, ok, err, Ensures, arith,
}
use world_class_seo_agent_sy.Budget.Limits.{ExecutionLimits}
use world_class_seo_agent_sy.Budget.Tests.{whole, limits, raw, post_init-raw}
use world_class_seo_agent_sy.Routing.Routes.{RouteResult}
use world_class_seo_agent_sy.Graph.Nodes.{WorkflowNode, WorkflowGraph}
use world_class_seo_agent_sy.Graph.Build.{
  node, build_workflow_graph, eligible_support, dedupe_from, slug,
}
use world_class_seo_agent_sy.Graph.Validate.{
  validate, validate_nodes, validate_depth, max_depth, depth_of, validate_deliverable,
}
use world_class_seo_agent_sy.Graph.Levels.{rounds, by_id}
use world_class_seo_agent_sy.Handoff.Outputs.{AgentOutput, empty_output}
use world_class_seo_agent_sy.Handoff.Edges.{
  KeyError, or_text, audit_graph_edges, expected_handoff_id,
}
use world_class_seo_agent_sy.Handoff.Tests.{constant_digest}
use world_class_seo_agent_sy.Findings.Registry.{Output}
use world_class_seo_agent_sy.Findings.Decisions.{Decision}
use world_class_seo_agent_sy.Runner.Session.{Run, AgentResult, ToolResult}
use world_class_seo_agent_sy.Runner.Tests.{fresh_run}
use world_class_seo_agent_sy.Runner.Support.{
  WorkflowStatus, node_result_state, scrum_completed, workflow_status, final_output,
}
use world_class_seo_agent_sy.Runner.Reconcile.{with_default}
use world_class_seo_agent_sy.Budget.Usage.{reserve_node, snapshot, check_runtime}
use world_class_seo_agent_sy.Handoff.Reconcile.{reconcile_required_handoffs}
use world_class_seo_agent_sy.Handoff.Resolve.{
  resolve_handoff_acknowledgements, ack_context_is_exact,
}
use world_class_seo_agent_sy.Handoff.Receipts.{seal_terminal_handoff}
use world_class_seo_agent_sy.Prelude.Strings.{blank}
use world_class_seo_agent_sy.Handoff.Controls.{audit_declared_controls}
use world_class_seo_agent_sy.Prelude.Numerals.{padded}
use world_class_seo_agent_sy.Runner.Nodes.{
  start_node, finish_node, dependency_outputs, create_handoffs,
}
use world_class_seo_agent_sy.Runner.Schedule.{
  Progress, at, Steps, Steps-join, next_level, start, acquire, finish, stay, step,
}
use world_class_seo_agent_sy.Runner.Run.{Prepared, Outcome, open_run, prepare, conclude}
use world_class_seo_agent_sy.Runner.Sound.{IsSound, run-IsSound}
use world_class_seo_agent_sy.Runner.Complete.{IsReady, prepare-IsReady}
use world_class_seo_agent_sy.Runner.Charges.{IsKept, Steps-budget}
use world_class_seo_agent_sy.Runner.Left.{steps_left, advances}
use world_class_seo_agent_sy.Runner.Liveness.{IsLive, Steps-IsLive}

abbrev report_route : RouteResult
report_route = record {
  lead_agent = "SEO Output Report Agent";
  supporting_agents = [];
  workflow = "workflows/request-routing.md";
  required_evidence = [];
  escalation = "";
  confidence = "Low";
}

abbrev lead : WorkflowNode
lead = node "lead-deliverable" "SEO Output Report Agent" [] "lead"

abbrev scrum : WorkflowNode
scrum = node "scrummaster-challenge" "SEO Scrummaster Agent" ("lead-deliverable" ∷ []) "governance"

abbrev graph : WorkflowGraph
graph = record {
  id = "routed-seo-output-report-agent-v2";
  nodes = lead ∷ scrum ∷ [];
  deliverable_node_id = "scrummaster-challenge";
  capacity_exclusions = [];
  declared_control_handoffs = [];
}

abbrev usable_tool : ToolResult
usable_tool = record { tool = "crawl"; status = "ok"; evidence_state = "CURRENT"; required = true }

abbrev lead_output : AgentOutput
lead_output = record empty_output {
  agent = some "SEO Output Report Agent";
  execution_state = some "COMPLETE";
}

abbrev scrum_output : AgentOutput
scrum_output = record empty_output {
  agent = some "SEO Scrummaster Agent";
  execution_state = some "COMPLETE";
  handoff_acknowledgements =
      record {
        handoff_id = some "s-scrummaster-challenge-handoff-01";
        disposition = some "CHALLENGED";
        requested_action_addressed =
            some
              "Consume this validated output and complete the governance responsibility without duplicating unsupported conclusions.";
        evidence_refs_addressed = [];
        acceptance_criteria_addressed =
            "The receiving output references or explicitly challenges the supplied evidence."
            ∷ "Conflicts and missing evidence are not silently discarded." ∷ [];
        resolution_note = "no evidence was supplied";
      }
      ∷ [];
}

abbrev fine : AgentResult
fine = record { status = "ok"; synthetic = false; errors = [] }

abbrev run_of : Result KeyError (Bool × Run whole) → Run whole
run_of (ok (started, r)) = r
run_of (err e) = fresh_run

abbrev opened : Run whole
opened = open_run limits 0 fresh_run

abbrev lead_started : Run whole
lead_started = run_of (start_node 1 lead opened)

abbrev lead_ended : Run whole
lead_ended = finish_node constant_digest "2" lead lead_output fine lead_started

abbrev scrum_started : Run whole
scrum_started = run_of (start_node 3 scrum lead_ended)

abbrev scrum_ended : Run whole
scrum_ended = finish_node constant_digest "4" scrum scrum_output fine scrum_started

abbrev ready : Prepared whole
ready = record {
  graph = graph;
  tool_failures = [];
  progress = at 0 [] [] [] ((lead ∷ []) ∷ (scrum ∷ []) ∷ []) opened;
}

abbrev ended : Progress whole
ended = at 3 [] [] [] [] scrum_ended

prepare-ready : prepare report_route "" limits 0 (usable_tool ∷ []) fresh_run ≡ ok ready
unfolding prepare build_workflow_graph validate validate_nodes eligible_support dedupe_from
    validate_depth max_depth depth_of validate_deliverable rounds by_id slug
prepare-ready = refl

route-validate : validate 2 3 (build_workflow_graph report_route "") ≡ ok tt
unfolding build_workflow_graph validate validate_nodes eligible_support dedupe_from validate_depth
    max_depth depth_of validate_deliverable slug
route-validate = refl

start-lead : start_node 1 lead opened ≡ ok (true, lead_started)
unfolding start_node reserve_node dependency_outputs
start-lead = refl

start-scrum : start_node 3 scrum lead_ended ≡ ok (true, scrum_started)
unfolding start_node finish_node reserve_node dependency_outputs node_result_state
start-scrum = refl

abbrev lead_queued : Progress whole
lead_queued = at 1 [] (lead ∷ []) [] ((scrum ∷ []) ∷ []) lead_started

abbrev scrum_queued : Progress whole
scrum_queued = at 3 [] (scrum ∷ []) [] [] scrum_started

abbrev until_lead : Steps constant_digest ready.progress lead_queued
until_lead =
    step ready.progress (at 0 (lead ∷ []) [] [] ((scrum ∷ []) ∷ []) opened) lead_queued
      (next_level 0 (lead ∷ []) ((scrum ∷ []) ∷ []) opened)
      (step _ lead_queued lead_queued
        (start 0 1 [] [] [] [] ((scrum ∷ []) ∷ []) lead opened lead_started (omega arith)
          start-lead)
        (stay lead_queued))

until_scrum : Steps constant_digest lead_queued scrum_queued
unfolding start_node reserve_node dependency_outputs
until_scrum =
    step lead_queued (at 1 [] [] (lead ∷ []) ((scrum ∷ []) ∷ []) lead_started) scrum_queued
      (acquire 1 [] [] [] [] ((scrum ∷ []) ∷ []) lead lead_started (omega arith))
      (step _ (at 1 [] [] [] ((scrum ∷ []) ∷ []) lead_ended) scrum_queued
        (finish 1 [] [] [] [] ((scrum ∷ []) ∷ []) lead lead_started "2" lead_output fine)
        (step _ (at 1 (scrum ∷ []) [] [] [] lead_ended) scrum_queued
          (next_level 1 (scrum ∷ []) [] lead_ended)
          (step _ scrum_queued scrum_queued
            (start 1 3 [] [] [] [] [] scrum lead_ended scrum_started (omega arith) start-scrum)
            (stay scrum_queued))))

until_end : Steps constant_digest scrum_queued ended
unfolding start_node finish_node reserve_node dependency_outputs node_result_state
until_end =
    step scrum_queued (at 3 [] [] (scrum ∷ []) [] scrum_started) ended
      (acquire 3 [] [] [] [] [] scrum scrum_started (omega arith))
      (step _ ended ended (finish 3 [] [] [] [] [] scrum scrum_started "4" scrum_output fine)
        (stay ended))

schedule : Steps constant_digest ready.progress ended
schedule =
    Steps-join constant_digest ready.progress lead_queued ended until_lead
      (Steps-join constant_digest lead_queued scrum_queued ended until_scrum until_end)

abbrev read : AgentOutput → Output
read output = record { agent = or_text output.agent "Unknown Agent"; findings = []; evidence = [] }

abbrev admits : Decision → Bool
admits decision = true

abbrev admits_session : Run whole → Bool
admits_session session = true

concluded :
    (o : Outcome whole) × (conclude constant_digest read admits admits_session graph [] 5 6
        scrum_ended
      ≡ ok o)
    × (o.status ≡ WorkflowStatus.complete)
unfolding conclude snapshot check_runtime start_node finish_node reserve_node dependency_outputs
    node_result_state dedupe_from with_default scrum_completed reconcile_required_handoffs
    audit_graph_edges workflow_status final_output audit_declared_controls create_handoffs
    resolve_handoff_acknowledgements expected_handoff_id padded ack_context_is_exact blank
    seal_terminal_handoff
concluded = (_, refl, refl)

run-IsSound_example : IsSound report_route "" limits 0 (usable_tool ∷ []) 6 concluded.0
run-IsSound_example =
    run-IsSound constant_digest read admits admits_session raw limits report_route "" 0
      (usable_tool ∷ []) fresh_run 6 concluded.0 post_init-raw route-validate
      (record {
        prepared = ready;
        prepares = prepare-ready;
        last = ended;
        schedule = schedule;
        over = (refl, refl, refl, refl);
        ended = 5;
        concludes = concluded.1;
      })
      concluded.2

abbrev default_limits : ExecutionLimits whole
default_limits = record limits { nodes = 20; workflow_depth = 5 }

prepare-IsReady_example :
    Ensures
      (IsReady report_route "" default_limits 0 (usable_tool ∷ []))
      (λ e. ⊥)
      (prepare report_route "" default_limits 0 (usable_tool ∷ []) fresh_run)
prepare-IsReady_example =
    prepare-IsReady report_route "" default_limits 0 (usable_tool ∷ []) fresh_run refl refl

Steps-budget_example : IsKept limits 0 ended.run.budget
Steps-budget_example =
    Steps-budget raw limits 0 constant_digest ready.progress ended post_init-raw refl schedule

Steps-IsLive_example :
    IsLive constant_digest limits ready.progress lead_queued until_lead 2 "2" lead_output fine
Steps-IsLive_example =
    Steps-IsLive constant_digest raw limits 0 ready.progress lead_queued until_lead 2 "2"
      lead_output fine post_init-raw refl refl refl (omega arith)

-- Two levels of one node each.
steps_left_tests :
    (steps_left ready.progress ≡ 8)
    × (steps_left lead_queued ≡ 6)
    × (advances constant_digest ready.progress lead_queued until_lead ≡ 2)
    × (steps_left ended ≡ 0)
steps_left_tests = (refl, refl, refl, refl)
