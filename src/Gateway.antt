-- ===== src/Gateway.antt =====
-- The parts of packages/llmkit/llmkit/gateway.py: retry budgets and the backends of the degradation
-- chain. Times are whole ticks of the clock, which the caller reads and passes on.
pub mod Limits
pub mod Rates
pub mod Checks
pub mod Retry
pub mod Window
pub mod Backends
pub mod Chain
pub mod Candidates
pub mod Breaker
pub mod Tests
