-- ===== src/Scheduler.antt =====
-- internal/semp/resilience/scheduler.go, the per-broker admission scheduler.
pub mod Rotor
pub mod State
pub mod Ops
pub mod Dispatch
pub mod Ringed
pub mod Shape
pub mod Grants
pub mod Cases
pub mod Invariant
pub mod Queues
pub mod Valid
pub mod Admission
pub mod Drain
pub mod DrainAll
pub mod Reachable
pub mod Order
pub mod Fairness
pub mod Returns
pub mod Settling
mod Tests
