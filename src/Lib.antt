-- ===== src/Lib.antt =====
-- World-Class SEO Agent System: a verification library of its runtime.
--
-- The runtime takes a request, routes it to a lead agent (runtime/routing.py), builds a graph of agent
-- nodes for it (runtime/workflow_graph.py), validates that graph against the limits of the run
-- (runtime/execution_limits.py) and runs its levels (runtime/workflow_runner.py,
-- runtime/workflow_run_support.py), each node under one budget (runtime/run_budget.py). A node hands its
-- output on in handoffs that the receiver must acknowledge; at the end they are reconciled with the graph
-- (runtime/handoff_governance.py, runtime/handoff_control_governance.py, runtime/handoff_receipts.py),
-- findings of several agents are joined (runtime/finding_registry.py), and actions are held against the
-- autonomy policy (runtime/autonomy.py). The output of an agent comes from a model that is asked
-- again until it is valid (runtime/structured_output.py), with the decisions of specialists
-- (runtime/specialist_decision.py), and evidence from adapters that are dispatched (runtime/tools.py).
-- Requests to the network go to URLs that were validated as public (security/url_safety.py,
-- integrations/technical/http.py). A crawl charges the URLs that it keeps to a chain of budgets
-- (integrations/product_proof/url_evidence_bounds.py), follows the links of one host within limits
-- (integrations/product_proof/crawler.py) and asks the robots policy
-- (integrations/product_proof/robots_policy.py) what it may read.
--
-- Files:
--   Prelude      shared names: Boolean tests on numbers, results of code that may raise, lists, texts
--                as dict keys, sorting, numerals and the `str` methods that the program calls
--   State        runtime/state.py: handoffs, events, the business context
--   Budget       Limits: runtime/execution_limits.py, `ExecutionLimits.__post_init__` is `post_init`.
--                Usage: runtime/run_budget.py, each method a function from the budget to the exception
--                that it raises, if any, and the budget that it leaves. Laws, Runs: the proofs
--   Routing      runtime/routing.py: `RequestRouter.route` is `route`, its tables are `routes` and
--                `support_table`
--   Graph        runtime/workflow_graph.py. Nodes: the records. Validate: `validate`. Levels: `levels`.
--                Build: the two builders. Ranks, Runnable, Accepts, Complete: what `validate` decides.
--                Picking, Rounds, Order: the levels. Numbered, Tails, Built: the built graphs
--   Handoff      Outputs: what is read of an output. Receipts: runtime/handoff_receipts.py. Resolve:
--                `resolve_handoff_acknowledgements`. Edges, Reconcile: `reconcile_required_handoffs`.
--                Controls: runtime/handoff_control_governance.py. Acks, Settled, Audits, Passes,
--                Totals: the proofs
--   Runner       Session: the state of a run. Support: runtime/workflow_run_support.py. Nodes:
--                `_execute_node`, cut in two where it waits for the executor. Schedule: `_execute_graph`
--                as a step relation over all interleavings of a level under its semaphore. Reconcile:
--                `_reconcile_outputs`. Finalize: `_finalize_run`. Run: `run`. Outputs, Charges, Left,
--                Tracked, Liveness: the proofs on every schedule; Status, Governed, Complete, Sound:
--                those on the end of a run and on a whole one
--   Autonomy     runtime/autonomy.py; Laws: the proof
--   Findings     runtime/finding_registry.py. Evidence: the state of the evidence. Registry: the records.
--                Conflicts: `conflicts`. Decisions: `build_decisions`. Laws: the proofs
--   UrlBudget    integrations/product_proof/url_evidence_bounds.py; `reserve` is `reserve_chars`.
--                Laws: the proof
--   Robots       integrations/product_proof/robots_policy.py. Globs: what a pattern matches. Matcher:
--                `_matches`. Policy: the limits, `_selected_groups`, `allowed`. Parse: `parse_robots`
--                of integrations/product_proof/crawler.py. Decides, Collects, Allowed, Limits: the proofs on
--                these; Lines, Print, Printed: the round trip
--   Crawler      integrations/product_proof/crawler.py: `crawl`, `_enqueue_links`, `_robots`. Lists,
--                Invariant, Complete, Ends, Texts, Hosts, Laws: the proofs
--   Agents       Specialist: runtime/specialist_decision.py. Fences, Output, Echo: runtime/structured_output.py,
--                the reading of an answer, the rounds of `complete_agent_output`, and its offline branch.
--                Consistent, Completes, Offline: the proofs
--   Network      Queries: the check of queries of sensitive_data.py. Addresses: `validate_public_url` and
--                `resolve_public_addresses` of security/url_safety.py. Classifier: its
--                `PublicURLClassificationBudget`. Client: `BoundedHttpClient.get` of
--                integrations/technical/http.py, Redirects: its `redirect_chain`. Public, Counts,
--                Bounds, Hops, Chains: the proofs
--   Tools        Contracts: contracts/adapter.py. Dots, Access, Dispatch: runtime/tools.py, what a request must
--                bring, and `ToolDispatcher`. Usable, Telemetry: the proofs
--
-- Objects that the program changes in place are passed on: a list of handoffs is the store, and `by_id`
-- reads the first record with an id. Code that raises returns a `Result`. Numbers are natural; a cost is
-- an abstract float with its tests, and the clock is read in milliseconds. Parameters: the float type
-- (Budget.Limits.Float), the digest of receipts (Handoff.Receipts.Digest), what the executor
-- returns, the registry's view of an output and the schemas of decisions and sessions, the joining,
-- splitting and normalisation of URLs, the parsing of addresses, the resolver and the opener, and what a
-- crawl reads from the network.
-- Fuel: the depth of a graph is searched with one unit for each node, and its levels with as many; that
-- this is enough is part of what is shown of `validate` and `levels`. The matcher has one unit for each
-- step of its cursor, and a crawl one for each URL that it can enqueue; both are shown to be enough. A
-- GET has one for each round of its loop.
-- Texts are ASCII where they are lowered, stripped or split.
--
-- Not modelled: the executor, the client of the language model, the adapters, the other integrations and the
-- command line, which do input and output; the payload of the report; the JSON forms of the records.
pub mod Prelude
pub mod State
pub mod Budget
pub mod Routing
pub mod Graph
pub mod Handoff
pub mod Runner
pub mod Autonomy
pub mod Robots
pub mod Crawler
pub mod Agents
pub mod Network
pub mod Tools
pub mod Findings
pub mod UrlBudget
