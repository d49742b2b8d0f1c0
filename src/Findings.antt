-- ===== src/Findings.antt =====
-- runtime/finding_registry.py: findings of several agents, joined by root cause.
pub mod Evidence
pub mod Registry
pub mod Conflicts
pub mod Decisions
pub mod Laws
mod Tests
