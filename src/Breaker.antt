-- ===== src/Breaker.antt =====
-- The composite circuit breaker: plugin/circuitbreaker/composite and pkg/model/circuitbreaker.go.
pub mod HalfOpen
pub mod Trigger
pub mod Consecutive
pub mod Counters
pub mod Rules
pub mod Fallback
