-- ===== src/Handoff.antt =====
-- Handoffs between agents: runtime/handoff_receipts.py, runtime/handoff_governance.py and
-- runtime/handoff_control_governance.py.
pub mod Outputs
pub mod Receipts
pub mod Resolve
pub mod Edges
pub mod Controls
pub mod Reconcile
pub mod Acks
pub mod Totals
pub mod Settled
pub mod Audits
pub mod Passes
pub mod Tests
