-- ===== src/Builder.antt =====
-- The program builder: workloads/ir-workload/fuzzamoto-ir/src/builder.rs and errors.rs.
-- A method takes the builder and gives an outcome with the builder after it; a panic ends the run.
-- `active_scopes` is a stack with its top first, and the hash set of the active scope ids is a list
-- without repetitions.
pub mod State
pub mod Append
pub mod Checks
pub mod Invariant
pub mod Advance
pub mod Programs
pub mod Queries
pub mod Sets
pub mod Typed
pub mod Headers
pub mod Utxos
pub mod Runs
pub mod Simulation
