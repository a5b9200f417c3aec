-- ===== src/Compiler/Values.antt =====
-- The values that compiled variables hold, by their Rust types: workloads/ir-workload/fuzzamoto-ir/
-- src/compiler.rs, with Header of generators/block.rs and the structs of workloads/ir-workload/
-- fuzzamoto/src/taproot.rs. A `Box<dyn Any>` is a `Value`: one constructor for each type that the
-- compiler boxes.
use Prim.Native.String.{String}
use bitcoin_antithesis.Prelude.{ℕ, ℤ, List, [], Option, none}
use bitcoin_antithesis.Addr.{AddrRecord}
use bitcoin_antithesis.Operation.{Operation, Duration}
use bitcoin_antithesis.Compiler.Bitcoin.{
  Bytes, Transaction, Block, BlockTxn, HeaderAndShortIds, Inventory, FilterLoad, Address,
  AddrV2Message,
}

pub record TaprootKeypair : Type 0 where
  pub secret_key : Bytes
  pub public_key : Bytes

pub record TaprootLeaf : Type 0 where
  pub version : ℕ
  pub script : Bytes
  pub merkle_branch : List Bytes

pub record TaprootSpendInfo : Type 0 where
  pub keypair : TaprootKeypair
  pub merkle_root : Option Bytes
  pub output_key : Bytes
  pub output_key_parity : ℕ
  pub script_pubkey : Bytes
  pub leaves : List TaprootLeaf
  pub selected_leaf : Option TaprootLeaf

pub record LegacyRequest : Type 0 where
  pub operation : Operation
  pub private_key_var : ℕ
  pub sighash_var : ℕ

pub record TaprootRequest : Type 0 where
  pub spend_info_var : Option ℕ
  pub selected_leaf : Option TaprootLeaf
  pub annex_var : Option ℕ

pub data SigningRequest : Type 0 where
  legacy : LegacyRequest → SigningRequest
  taproot : TaprootRequest → SigningRequest

pub record Witness : Type 0 where
  pub stack : List Bytes

pub record Scripts : Type 0 where
  pub script_pubkey : Bytes
  pub script_sig : Bytes
  pub witness : Witness
  pub requires_signing : Option SigningRequest

pub record Txo : Type 0 where
  pub prev_out : Bytes × ℕ
  pub scripts : Scripts
  pub value : ℕ

pub record TxOutputs : Type 0 where
  pub outputs : List (Scripts × ℕ)
  pub fees : ℕ

pub record TxInput : Type 0 where
  pub txo_var : ℕ
  pub sequence_var : ℕ

pub record TxInputs : Type 0 where
  pub inputs : List TxInput
  pub total_value : ℕ

pub record Tx : Type 0 where
  pub tx : Transaction
  pub txos : List Txo
  pub output_selector : ℕ
  pub id : Bytes

pub record CoinbaseInput : Type 0 where
  pub sequence : ℕ
  pub total_value : ℕ

pub record CoinbaseTx : Type 0 where
  pub tx : Tx
  pub scripts : List Scripts

pub record BlockTransactions : Type 0 where
  pub txs : List Tx
  pub var_indices : List ℕ

pub record AddrList : Type 0 where
  pub entries : List (ℕ × Address)

pub record AddrListV2 : Type 0 where
  pub entries : List AddrV2Message

pub record Header : Type 0 where
  pub prev : Bytes
  pub merkle_root : Bytes
  pub nonce : ℕ
  pub bits : ℕ
  pub time : ℕ
  pub version : ℤ
  pub height : ℕ

pub data Value : Type 0 where
  nop : Value
  usize : ℕ → Value
  u64 : ℕ → Value
  u32 : ℕ → Value
  u8 : ℕ → Value
  i32 : ℤ → Value
  string : String → Value
  duration : Duration → Value
  chars : List ℕ → Value
  bytes : Bytes → Value
  array32 : Bytes → Value
  addr_record : AddrRecord → Value
  live_time : Value
  header : Header → Value
  txo : Txo → Value
  filter_load : FilterLoad → Value
  filter_add : Bytes → Value
  inventory : List Inventory → Value
  addr_list : AddrList → Value
  addr_list_v2 : AddrListV2 → Value
  addresses : List (ℕ × Address) → Value
  addr_messages : List AddrV2Message → Value
  witness : Witness → Value
  compact_block : HeaderAndShortIds → Value
  scripts : Scripts → Value
  spend_info : TaprootSpendInfo → Value
  tx : Tx → Value
  tx_inputs : TxInputs → Value
  tx_outputs : TxOutputs → Value
  coinbase_input : CoinbaseInput → Value
  coinbase_tx : CoinbaseTx → Value
  block_transactions : BlockTransactions → Value
  block : Block → Value
  block_txn : BlockTxn → Value

abbrev pub no_witness : Witness
no_witness = record { stack = [] }

unfoldable pub new_txo : List ℕ → Txo
new_txo zeros = record {
  prev_out = (zeros, 0);
  scripts = record {
    script_pubkey = [];
    script_sig = [];
    witness = no_witness;
    requires_signing = none;
  };
  value = 0;
}
