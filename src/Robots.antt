-- ===== src/Robots.antt =====
-- integrations/product_proof/robots_policy.py, and the reader of robots.txt of
-- integrations/product_proof/crawler.py.
pub mod Globs
pub mod Matcher
pub mod Decides
pub mod Policy
pub mod Collects
pub mod Allowed
pub mod Parse
pub mod Lines
pub mod Print
pub mod Printed
pub mod Limits
pub mod Tests
