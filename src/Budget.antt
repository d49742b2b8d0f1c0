-- ===== src/Budget.antt =====
-- runtime/execution_limits.py and runtime/run_budget.py: the ceilings of a run and their accounting.
-- Costs are floats there: the type and its tests are the parameter `Float`. Clock readings are whole
-- milliseconds, so `max_runtime_seconds` is compared after scaling.
pub mod Limits
pub mod Usage
pub mod Laws
pub mod Runs
pub mod Tests
