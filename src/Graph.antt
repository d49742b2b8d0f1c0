-- ===== src/Graph.antt =====
-- runtime/workflow_graph.py: workflow graphs, their validation, their levels, and the two builders.
pub mod Nodes
pub mod Validate
pub mod Levels
pub mod Ranks
pub mod Runnable
pub mod Accepts
pub mod Complete
pub mod Picking
pub mod Rounds
pub mod Order
pub mod Build
pub mod Numbered
pub mod Tails
pub mod Built
mod Tests
