-- ===== src/Call.antt =====
-- Outbound calls that survive failures: src/core/call. Types and retry delays, the circuit breaker,
-- the gateway with its semaphore, and the slot by which an aggregate runs one call.
pub mod Types
pub mod Retry
pub mod Breaker
pub mod Gateway
pub mod Slot
