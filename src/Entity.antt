-- ===== src/Entity.antt =====
-- The entity runner: src/inmem/entity-runner.ts, with the aggregate that it runs
-- (src/core/aggregate.ts). This file has the types, and the children the operations (Execute, Loop)
-- and what holds of them.
pub mod Types
pub mod Execute
pub mod Loop
pub mod Mailbox
pub mod Induction
pub mod Recovery
pub mod Durability
pub mod Reach
pub mod Recent
pub mod Snapshots
pub mod Termination
pub mod Answers
mod Tests
