-- ===== src/Learning.antt =====
-- crates/sovalune-self-learning: the learning cycle. Status is the life of a cycle, Monad the world and
-- the actions, Store its tables, Orchestrator the operations on a cycle.
pub mod Status
pub mod Monad
pub mod Store
pub mod Orchestrator
pub mod Invariant
pub mod Transitions
pub mod Stages
pub mod Pipeline
