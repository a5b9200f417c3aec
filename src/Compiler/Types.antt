-- ===== src/Compiler/Types.antt =====
-- The types that the compiler downcasts to: `downcast_ref` and `downcast_mut` of compiler.rs in
-- workloads/ir-workload/fuzzamoto-ir/src. A type is its id, with the boxing of its values and the
-- downcast to it.
pub mod Numbers
pub mod Plain
pub mod Network
pub mod Coins
pub mod Blocks
use bitcoin_antithesis.Prelude.{ℕ, ◌≡◌, Option, some}
use bitcoin_antithesis.Compiler.Values.{Value}

unfoldable pub type_id : Value → ℕ
type_id Value.nop = 0
type_id (Value.usize _) = 1
type_id (Value.u64 _) = 2
type_id (Value.u32 _) = 3
type_id (Value.u8 _) = 4
type_id (Value.i32 _) = 5
type_id (Value.string _) = 6
type_id (Value.duration _) = 7
type_id (Value.chars _) = 8
type_id (Value.bytes _) = 9
type_id (Value.array32 _) = 10
type_id (Value.addr_record _) = 11
type_id Value.live_time = 12
type_id (Value.header _) = 13
type_id (Value.txo _) = 14
type_id (Value.filter_load _) = 15
type_id (Value.filter_add _) = 16
type_id (Value.inventory _) = 17
type_id (Value.addr_list _) = 18
type_id (Value.addr_list_v2 _) = 19
type_id (Value.addresses _) = 20
type_id (Value.addr_messages _) = 21
type_id (Value.witness _) = 22
type_id (Value.compact_block _) = 23
type_id (Value.scripts _) = 24
type_id (Value.spend_info _) = 25
type_id (Value.tx _) = 26
type_id (Value.tx_inputs _) = 27
type_id (Value.tx_outputs _) = 28
type_id (Value.coinbase_input _) = 29
type_id (Value.coinbase_tx _) = 30
type_id (Value.block_transactions _) = 31
type_id (Value.block _) = 32
type_id (Value.block_txn _) = 33

-- A boxed value has the type's id, and a value with that id can be downcast, to what it
-- boxes.
pub record IsDowncast {A : Type 0} (id : ℕ) (wrap : A → Value) (cast : Value → Option A)
    : Type 0 where
  pub wrap_id : (a : A) → type_id (wrap a) ≡ id
  pub cast_wrap : (a : A) → cast (wrap a) ≡ some a
  pub cast_ok : (v : Value) → type_id v ≡ id → (a : A) × (cast v ≡ some a) × (wrap a ≡ v)

pub record RustType (A : Type 0) : Type 0 where
  pub id : ℕ
  pub wrap : A → Value
  pub cast : Value → Option A
  pub laws : IsDowncast id wrap cast
