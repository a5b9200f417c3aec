-- ===== src/Lib.antt =====
-- Verification of the intermediate representation of the ir-workload: the crate fuzzamoto-ir under
-- workloads/ir-workload/fuzzamoto-ir/src. A test program is a list of instructions. Each names an
-- operation and the variables, by number, that it takes; each operation has a signature: the types
-- of its inputs, of its outputs and, if it opens a block, of the variables inside that block.
-- Generators make programs through a builder, mutators splice programs and rewrite them, minimizers
-- cut them down, and the compiler turns them into actions on nodes.
--
--   Variable, Operation, Operation.Blocks, Operation.Signature: variable.rs and operation.rs, one
--     constructor per variant, one clause per arm of a match.
--   Instruction: instruction.rs. `nop` is nop_instruction.
--   Addr: AddrNetwork and AddrRecord of lib.rs.
--   Builder.State: the state of ProgramBuilder in builder.rs, its scopes, and a state and error monad
--     M: an error carries the builder as far as the call had changed it, a panic carries nothing.
--   Builder.Append: ProgramBuilder::append in the order of the source: check_instruction is the part
--     before the first change, apply_instruction the rest. Builder.Programs: append_all,
--     append_program, from_program, finalize, and Program::is_statically_valid and to_builder.
--   Builder.Checks, Builder.Invariant, Builder.Advance, Builder.Runs: the declarative typing of
--     instructions, the invariant of the builder, the description of append by formulas, and the
--     validity of programs. Builder.Simulation relates two builders of which one runs renamed
--     instructions; the mutators rest on it.
--   Program: get_random_instruction_index_from of lib.rs.
--   Program.Nops: remove_nops of lib.rs.
--   Builder.Queries, Builder.Headers, Builder.Utxos: get_variable, get_nearest_variable,
--     get_random_variable and force_append; get_nearest_sent_header; get_random_utxos.
--   Mutator: the splicing mutators of mutators/concat.rs and mutators/combine.rs, and the exchange of
--     an input of mutators/input.rs. Mutator.Parameters: of mutators/operation.rs, the exchange of
--     operations and mutate_addr_payload.
--   Minimizer: minimizers/nopping.rs, minimizers/cutting.rs and minimizers/instr_block.rs as state
--     machines: next, success and failure.
--   Compiler: compiler.rs. Compiler.Values and Compiler.Types: the compiled values, of which
--     `dyn Any` holds one, and the downcasts. Compiler.State: the compiler, its metadata, the outcomes
--     of a call (a result, an error, a panic, a panic by a lookup that has failed, or no return) and
--     the access to variables. One module per group of handlers: Loads, Inventories, Addresses,
--     Filters, Taproot, Scripts, Signing (finalize_tx), Transactions, Blocks (build_block), Sending.
--     Compiler.Arms is the match of compile and Compiler.Dispatch that of compile_instruction, two
--     copies in the source; Compiler.Compile is compile and compile_from, each with its own loop, and
--     the queries of the metadata. Compiler.Copies compares the copies.
--   Compiler.Records, Compiler.Grows: what every call adds to the compiler, and the indices over whole
--     programs. Compiler.Refers: the variables that compiled values hold. Compiler.Typed: the types of
--     the compiled variables against those of the builder.
--   Compiler.Batches, Compiler.Spent, Compiler.Taken: compile_from, AddTxOutput, TakeTxo.
--   Compiler.Mining: workloads/ir-workload/fuzzamoto/src/test_utils/mining.rs. Compiler.Bitcoin: the
--     structs of rust-bitcoin, and its functions as a record Library that the compiler takes.
--   Bloom: bloom.rs, with murmur3 as a parameter.
--
--   Prelude and Partial hold the shared names, lists over native numbers and the panic; Tests holds
--     small programs and the theorems on them.
--
-- Conventions. usize, u8, u32 and u64 are natural numbers; program sizes are far from 2 ^ 64, so an
-- index never wraps. The builds are release builds, in which sums of values and nonces wrap, and this
-- is written out. A Vec that is used as a stack is a list with its top first. A HashSet is a
-- list without repetition, a HashMap an association list. The random choices of the crate rand are
-- parameters, with what its
-- documentation says of them as a hypothesis. unwrap, expect, assert and slices out of range panic,
-- and a panic is a value of the outcome. The clock of the system is a function of the number of the
-- instruction that reads it. Loops run over lists or down to 0; only two run on fuel: the driver of the
-- cutting minimizer, for which (n + 1) * (n + 1) steps are enough for a program of n instructions, and
-- the search for a nonce, which after 2 ^ 32 steps has tried every nonce and is taken to run for ever.
--
-- Not modelled: text output and the texts of errors, the generators, the metadata of test cases, the
-- new values of loaded parameters in mutators/operation.rs, and the drivers of both workloads, which
-- are input and output. The functions of rust-bitcoin, secp256k1 and murmurs are parameters.
pub mod Prelude
pub mod Partial
pub mod Addr
pub mod Variable
pub mod Operation
pub mod Instruction
pub mod Bloom
pub mod Builder
pub mod Compiler
pub mod Mutator
pub mod Minimizer
pub mod Program
mod Tests
