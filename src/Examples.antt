-- ===== src/Examples.antt =====
-- Runs of the model on concrete data, and each theorem with hypotheses applied to them.
pub mod Data
pub mod Resources
pub mod Nodes
pub mod Jobs
pub mod Sessions
pub mod Gangs
pub mod Statements
pub mod Queues
pub mod Selection
pub mod Reaching
pub mod Caches
pub mod Simulations
pub mod Allocations
pub mod Preemptions
pub mod Preempting
