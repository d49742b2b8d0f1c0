-- ===== src/Handoff/Edges.antt =====
-- runtime/handoff_governance.py: the audit of the required dependency edges. It blocks handoffs in
-- place, and `by_id` shares the records: here the list of records is passed on, and the first one with
-- an id is the head of its `by_id` entry.
use Prim.Native.String.{◌++◌ as append}
use text.Mathlib.Text.{starts_with}
use world_class_seo_agent_sy.Prelude.{
  ℕ, suc, Bool, true, false, not, ◌&&◌, ◌||◌, String, Option, none, some, List, [], ◌∷◌, ◌++◌, map,
  Result, ok, err, ◌>>=◌, keep, find, length, ltb, sort_by, lookup, ◌==◌, if◌then◌else◌,
}
use world_class_seo_agent_sy.Prelude.Numerals.{padded}
use world_class_seo_agent_sy.State.{Handoff, HandoffStatus, created, consumed, block}
use world_class_seo_agent_sy.Graph.Nodes.{WorkflowNode, WorkflowGraph}
use world_class_seo_agent_sy.Graph.Validate.{node_of}
use world_class_seo_agent_sy.Graph.Build.{dedupe}
use world_class_seo_agent_sy.Handoff.Outputs.{AgentOutput, empty_output}
use world_class_seo_agent_sy.Handoff.Receipts.{
  Digest, seal_terminal_handoff, terminal_receipt_is_valid,
}
use world_class_seo_agent_sy.Handoff.Resolve.{is_text}

-- The "code" of an issue; its "detail" is left out.
pub data IssueCode : Type 0 where
  duplicate_handoff stale_handoff missing_handoff wrong_recipient wrong_consumer : IssueCode
  silently_dropped_handoff invalid_terminal_receipt unexpected_handoff evidence_free_acceptance :
      IssueCode
  invalid_control_declaration missing_control_handoff invalid_control_handoff : IssueCode

pub record Issue : Type 0 where
  pub code : IssueCode
  pub handoff_id : String

abbrev pub issue : IssueCode → String → List Issue
issue code handoff_id = record { code = code; handoff_id = handoff_id } ∷ []

-- The state of a node, as `_execute_node` writes it.
pub data NodeState : Type 0 where
  complete synthetic partial blocked failed : NodeState

-- `states.get(node_id) in {"COMPLETE", "SYNTHETIC"}`
abbrev pub is_completed : Option NodeState → Bool
is_completed (some complete) = true
is_completed (some synthetic) = true
is_completed _ = false

abbrev pub States : Type 0
States = List (String × NodeState)

abbrev pub Outputs : Type 0
Outputs = List (String × AgentOutput)

-- `outputs_by_node.get(node_id, {})`
abbrev pub or_empty : Option AgentOutput → AgentOutput
or_empty none = empty_output
or_empty (some output) = output

abbrev pub output_of : String → Outputs → AgentOutput
output_of node_id outputs = or_empty (lookup node_id outputs)

abbrev pub or_text : Option String → String → String
or_text none text = text
or_text (some value) text = value

abbrev pub status_is : HandoffStatus → HandoffStatus → Bool
status_is created created = true
status_is consumed consumed = true
status_is HandoffStatus.blocked HandoffStatus.blocked = true
status_is _ _ = false

-- `by_id.get(handoff_id, [])`
abbrev pub matches : String → List Handoff → List Handoff
matches handoff_id records = keep (λ h. h.handoff_id == handoff_id) records

-- A change of the first record with an id.
abbrev pub update_first : (Handoff → Handoff) → String → List Handoff → List Handoff
update_first change handoff_id [] = []
update_first change handoff_id (h ∷ hs) =
    if h.handoff_id == handoff_id then change h ∷ hs else h ∷ update_first change handoff_id hs

unfoldable pub expected_handoff_id : String → String → ℕ → String
expected_handoff_id session_id node_id index =
    append session_id (append "-" (append node_id (append "-handoff-" (padded 2 index))))

abbrev pub of_session : String → String → Bool
of_session session_id handoff_id = starts_with handoff_id (append session_id "-")

-- `_index_handoffs`: the issues of the ids, in sorted order.
unfoldable pub index_issues : String → List Handoff → List String → List Issue
index_issues session_id records [] = []
index_issues session_id records (handoff_id ∷ rest) =
    (if ltb 1 (length (matches handoff_id records)) then issue duplicate_handoff handoff_id else [])
    ++ (if of_session session_id handoff_id then [] else issue stale_handoff handoff_id)
    ++ index_issues session_id records rest

unfoldable pub index_handoffs : List Handoff → String → List Issue
unfolding index_issues
index_handoffs records session_id =
    index_issues session_id records (sort_by (λ k. k) (dedupe (map (λ h. h.handoff_id) records)))

pub record Edge : Type 0 where
  pub node : WorkflowNode
  pub dependency_id : String
  pub index : ℕ

-- The inner loop of `_required_edges`.
abbrev pub edges_of : States → WorkflowNode → ℕ → List String → List Edge
edges_of states node index [] = []
edges_of states node index (dep ∷ deps) =
    let rest = edges_of states node (suc index) deps in
    if is_completed (lookup dep states)
    then record { node = node; dependency_id = dep; index = index } ∷ rest
    else rest

unfoldable pub required_edges : States → List WorkflowNode → List Edge
required_edges states [] = []
required_edges states (node ∷ nodes) =
    let rest = required_edges states nodes in
    if is_completed (lookup node.id states)
    then edges_of states node 1 node.depends_on ++ rest
    else rest

unfoldable pub terminal_has_wrong_consumer : Handoff → String → String → AgentOutput → Bool
terminal_has_wrong_consumer h node_id node_agent receiver =
    (status_is h.status consumed
      || (status_is h.status HandoffStatus.blocked && not (h.receiving_output_id == "")))
    && (not (h.receiving_output_id == or_text receiver.output_id "")
        || not (h.receiving_node_id == node_id)
        || not (is_text receiver.agent node_agent))

-- A lookup `nodes[dependency_id]` that fails.
pub data KeyError : Type 0 where
  key_error : String → KeyError

abbrev pub sender_agent : Option WorkflowNode → String → Result KeyError String
sender_agent none dependency_id = err (key_error dependency_id)
sender_agent (some node) dependency_id = ok node.agent

module _ (digest : Digest) where
  abbrev pub drop_pending : String → Handoff → Handoff
  drop_pending reason h = seal_terminal_handoff digest (block reason h)

  abbrev pub misaddressed :
      (handoff_id dependency_id node_id node_agent expected_sender : String) → Handoff → List Issue
  misaddressed handoff_id dependency_id node_id node_agent expected_sender h =
      if h.to_agent == node_agent
        && h.from_agent == expected_sender
        && h.source_node_id == dependency_id
        && h.target_node_id == node_id
      then []
      else issue wrong_recipient handoff_id

  -- The rest of the audit of an edge, once the first match is known to be addressed.
  unfoldable pub audit_terminal :
      (handoff_id node_id node_agent : String)
      → AgentOutput
      → Handoff
      → List Handoff
      → List Issue × List Handoff
  unfolding terminal_has_wrong_consumer
  audit_terminal handoff_id node_id node_agent receiver h records =
      if terminal_has_wrong_consumer h node_id node_agent receiver
      then (issue wrong_consumer handoff_id, records)
      else if status_is h.status created
      then (
        issue silently_dropped_handoff handoff_id,
        update_first (drop_pending "No exact acknowledgement resolved this required handoff.")
            handoff_id records,
      )
      else if terminal_receipt_is_valid digest h
      then ([], records)
      else (issue invalid_terminal_receipt handoff_id, records)

  -- `_audit_required_edge`, on the first of the matches: the issues, and the records as they are left.
  unfoldable pub audit_required_edge :
      (handoff_id dependency_id node_id node_agent expected_sender : String)
      → AgentOutput
      → Option Handoff
      → List Handoff
      → List Issue × List Handoff
  unfolding audit_terminal
  audit_required_edge handoff_id dependency_id node_id node_agent expected_sender receiver none
        records =
      (issue missing_handoff handoff_id, records)
  audit_required_edge handoff_id dependency_id node_id node_agent expected_sender receiver (some h)
        records =
      let rest = audit_terminal handoff_id node_id node_agent receiver h records in
      (misaddressed handoff_id dependency_id node_id node_agent expected_sender h ++ rest.0, rest.1)

  -- What an audit returns: the expected ids, the issues, and the records.
  abbrev pub Audit : Type 0
  Audit = List String × List Issue × List Handoff

  -- The loop of `_audit_graph_edges`.
  unfoldable pub audit_edges :
      String → List WorkflowNode → Outputs → List Edge → List Handoff → Result KeyError Audit
  unfolding audit_required_edge
  audit_edges session_id nodes outputs [] records = ok ([], [], records)
  audit_edges session_id nodes outputs (e ∷ edges) records =
      let handoff_id = expected_handoff_id session_id e.node.id e.index in
      sender_agent (node_of nodes e.dependency_id) e.dependency_id >>= λ agent.
      let sender = or_text (output_of e.dependency_id outputs).agent agent in
      let (issues, left) =
        audit_required_edge handoff_id e.dependency_id e.node.id e.node.agent sender
          (output_of e.node.id outputs) (find (λ h. h.handoff_id == handoff_id) records) records in
      audit_edges session_id nodes outputs edges left >>= λ later.
      ok (handoff_id ∷ later.0, issues ++ later.1, later.2)

  unfoldable pub audit_graph_edges :
      String → WorkflowGraph → States → Outputs → List Handoff → Result KeyError Audit
  unfolding audit_edges required_edges
  audit_graph_edges session_id g states outputs records =
      audit_edges session_id g.nodes outputs (required_edges states g.nodes) records
