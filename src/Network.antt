-- ===== src/Network.antt =====
-- The outbound requests: security/url_safety.py, the check of queries of sensitive_data.py, and
-- integrations/technical/http.py. What `urllib`, `idna`, `ipaddress` and `html` compute is the
-- parameter `Libraries`; the resolver, the opener and the clock are functions on a state `World` of
-- which nothing is known.
pub mod Queries
pub mod Addresses
pub mod Public
pub mod Classifier
pub mod Counts
pub mod Bounds
pub mod Client
pub mod Hops
pub mod Redirects
pub mod Chains
mod Tests
