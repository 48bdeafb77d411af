-- ===== src/Routing.antt =====
-- The routers of packages/llmkit/llmkit/routing.py. A time is a whole tick, which the caller reads; the
-- hash of texts is a parameter.
pub mod Replicas
pub mod Affinity
pub mod Choice
pub mod Walk
pub mod Ring
pub mod Moves
pub mod Tests
