-- ===== src/Runner.antt =====
-- The run of a workflow: runtime/workflow_run_support.py and runtime/workflow_runner.py.
pub mod Session
pub mod Support
pub mod Nodes
pub mod Schedule
pub mod Finalize
pub mod Outputs
pub mod Status
pub mod Charges
pub mod Reconcile
pub mod Run
pub mod Left
pub mod Tracked
pub mod Liveness
pub mod Complete
pub mod Sound
pub mod Governed
mod Tests
mod WholeRun
