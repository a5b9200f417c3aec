-- ===== src/Compiler.antt =====
-- The compiler of programs to actions: workloads/ir-workload/fuzzamoto-ir/src/compiler.rs.
pub mod Bitcoin
pub mod Values
pub mod Types
pub mod State
pub mod Loads
pub mod Inventories
pub mod Addresses
pub mod Filters
pub mod Taproot
pub mod Scripts
pub mod Signing
pub mod Transactions
pub mod Mining
pub mod Blocks
pub mod Sending
pub mod Dispatch
pub mod Arms
pub mod Compile
pub mod Copies
pub mod Records
pub mod Grows
pub mod Refers
pub mod Typed
pub mod Batches
pub mod Spent
pub mod Taken
