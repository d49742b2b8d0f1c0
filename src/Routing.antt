-- ===== src/Routing.antt =====
-- runtime/routing.py: the route of a request, chosen by its keywords.
pub mod Routes
pub mod Laws
mod Tests
