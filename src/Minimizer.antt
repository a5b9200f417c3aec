-- ===== src/Minimizer.antt =====
-- The minimizers: workloads/ir-workload/fuzzamoto-ir/src/minimizers. A minimizer offers programs,
-- and is told of each whether it still shows what is looked for.
pub mod Nopping
pub mod Cutting
pub mod InstrBlock
