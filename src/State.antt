-- ===== src/State.antt =====
-- runtime/state.py: the records that a run shares. Time stamps are texts that the caller reads from
-- the clock; the fields of a session that no modelled operation reads are left out.
use world_class_seo_agent_sy.Prelude.{String, List}

pub record BusinessContext : Type 0 where
  pub domain : String
  pub business_type : String
  pub markets : List String
  pub goals : List String

-- `Handoff.status`
pub data HandoffStatus : Type 0 where
  created consumed blocked : HandoffStatus

-- `Handoff.resolution`
pub data Resolution : Type 0 where
  pending accepted challenged unresolved : Resolution

-- The fields of a handoff that `control_contract` returns.
pub record HandoffContract : Type 0 where
  pub handoff_id : String
  pub from_agent : String
  pub to_agent : String
  pub reason : String
  pub context_summary : String
  pub evidence_refs : List String
  pub requested_action : String
  pub risk_level : String
  pub acceptance_criteria : List String
  pub due_trigger : String
  pub source_node_id : String
  pub target_node_id : String

pub record Handoff : Type 0 where
  pub control_contract : HandoffContract
  pub open control_contract use *
  pub status : HandoffStatus
  pub receiving_output_id : String
  pub receiving_node_id : String
  pub consumed_at : String
  pub unresolved_reason : String
  pub resolution : Resolution
  pub terminal_receipt : String

-- A new handoff, with the defaults of the class.
abbrev pub new_handoff : HandoffContract → Handoff
new_handoff c = record {
  control_contract = c;
  status = created;
  receiving_output_id = "";
  receiving_node_id = "";
  consumed_at = "";
  unresolved_reason = "";
  resolution = pending;
  terminal_receipt = "";
}

abbrev pub consume : (now output_id node_id : String) → Resolution → Handoff → Handoff
consume now output_id node_id disposition h = record h {
  status = consumed;
  receiving_output_id = output_id;
  receiving_node_id = node_id;
  consumed_at = now;
  unresolved_reason = "";
  resolution = disposition;
}

abbrev pub block : String → Handoff → Handoff
block reason h = record h { status = blocked; unresolved_reason = reason; resolution = unresolved }

pub record WorkflowEvent : Type 0 where
  pub event_id : String
  pub node_id : String
  pub agent : String
  pub state : String
  pub timestamp : String
  pub detail : String
