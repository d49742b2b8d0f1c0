-- ===== src/Tools.antt =====
-- runtime/tools.py and contracts/adapter.py: the dispatch of tools, what they may be asked, and its
-- telemetry.
pub mod Contracts
pub mod Dots
pub mod Access
pub mod Dispatch
pub mod Usable
pub mod Telemetry
mod Tests
