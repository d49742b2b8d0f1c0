-- ===== src/Handoff/Outputs.antt =====
-- What the runner reads of the output of an agent: a dict that the output schema has admitted. A
-- missing key is `none`, or the default with which every reader asks for it.
use world_class_seo_agent_sy.Prelude.{String, Option, none, List, []}

-- An item of "handoff_acknowledgements".
pub record Acknowledgement : Type 0 where
  pub handoff_id : Option String
  pub disposition : Option String
  pub requested_action_addressed : Option String
  pub evidence_refs_addressed : List String
  pub acceptance_criteria_addressed : List String
  pub resolution_note : String

-- An item of a list of "findings", with the keys that a handoff reads.
pub record OutputFinding : Type 0 where
  pub id : Option String
  pub severity : Option String

pub record AgentOutput : Type 0 where
  pub output_id : Option String
  pub agent : Option String
  pub summary : String
  pub execution_state : Option String
  pub findings : List OutputFinding
  pub handoff_acknowledgements : List Acknowledgement

-- `{}`
abbrev pub empty_output : AgentOutput
empty_output = record {
  output_id = none;
  agent = none;
  summary = "";
  execution_state = none;
  findings = [];
  handoff_acknowledgements = [];
}
