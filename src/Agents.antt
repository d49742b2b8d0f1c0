-- ===== src/Agents.antt =====
-- runtime/specialist_decision.py and runtime/structured_output.py: the decisions of specialist
-- agents, and the calls of a model until its output is valid.
pub mod Specialist
pub mod Consistent
pub mod Fences
pub mod Output
pub mod Completes
pub mod Echo
pub mod Offline
mod Tests
