-- ===== src/Compiler/Bitcoin.antt =====
-- The structs of rust-bitcoin that the compiler builds, and the functions of that crate which it
-- calls, as a parameter: workloads/ir-workload/fuzzamoto-ir/src/compiler.rs uses both. Hashes, keys
-- and scripts are lists of bytes.
use bitcoin_antithesis.Prelude.{ℕ, ℤ, Bool, List, Option}

abbrev pub Bytes : Type 0
Bytes = List ℕ

pub record TxIn : Type 0 where
  pub previous_output : Bytes × ℕ
  pub script_sig : Bytes
  pub sequence : ℕ
  pub witness : List Bytes

pub record TxOut : Type 0 where
  pub value : ℕ
  pub script_pubkey : Bytes

pub record Transaction : Type 0 where
  pub version : ℤ
  pub lock_time : ℕ
  pub input : List TxIn
  pub output : List TxOut

pub record BlockHeader : Type 0 where
  pub version : ℤ
  pub prev_blockhash : Bytes
  pub merkle_root : Bytes
  pub bits : ℕ
  pub nonce : ℕ
  pub time : ℕ

pub record Block : Type 0 where
  pub header : BlockHeader
  pub txdata : List Transaction

-- `bip152::BlockTransactions`.
pub record BlockTxn : Type 0 where
  pub block_hash : Bytes
  pub transactions : List Transaction

pub record HeaderAndShortIds : Type 0 where
  pub header : BlockHeader
  pub nonce : ℕ
  pub short_ids : List Bytes
  pub prefilled_txs : List (ℕ × Transaction)

pub data Inventory : Type 0 where
  transaction : Bytes → Inventory
  block : Bytes → Inventory
  compact_block : Bytes → Inventory
  wtx : Bytes → Inventory
  witness_transaction : Bytes → Inventory
  witness_block : Bytes → Inventory
  unknown : ℕ → Bytes → Inventory

pub data BloomFlags : Type 0 where
  none all pubkey_only : BloomFlags

pub record FilterLoad : Type 0 where
  pub filter : Bytes
  pub hash_funcs : ℕ
  pub tweak : ℕ
  pub flags : BloomFlags

-- `std::net::SocketAddr`.
pub data SocketAddr : Type 0 where
  v4 : Bytes → ℕ → SocketAddr
  v6 : Bytes → ℕ → SocketAddr

pub record Address : Type 0 where
  pub services : ℕ
  pub address : List ℕ
  pub port : ℕ

pub data AddrV2 : Type 0 where
  ipv4 : Bytes → AddrV2
  ipv6 : Bytes → AddrV2
  tor_v3 : Bytes → AddrV2
  i2p : Bytes → AddrV2
  cjdns : Bytes → AddrV2
  unknown : ℕ → Bytes → AddrV2

pub record AddrV2Message : Type 0 where
  pub time : ℕ
  pub services : ℕ
  pub addr : AddrV2
  pub port : ℕ

-- What the compiler gives to `serialize`.
pub data Message : Type 0 where
  tx : Transaction → Message
  block : Block → Message
  block_txn : BlockTxn → Message
  inventory : List Inventory → Message
  addr : List (ℕ × Address) → Message
  addr_v2 : List AddrV2Message → Message
  header : BlockHeader → Message
  get_c_filters : ℕ → ℕ → Bytes → Message
  get_cf_headers : ℕ → ℕ → Bytes → Message
  get_cf_checkpt : ℕ → Bytes → Message
  filter_load : FilterLoad → Message
  filter_add : Bytes → Message
  bytes : Bytes → Message
  compact_block : HeaderAndShortIds → Message

-- `taproot::NodeInfo`: a node's hash, and its leaves with their scripts, versions and branches.
pub record NodeInfo : Type 0 where
  pub hash : Bytes
  pub leaves : List (Bytes × ℕ × List Bytes)

-- `taproot::TaprootSpendInfo`, as far as the compiler reads it.
pub record SpendInfo : Type 0 where
  pub output_key : Bytes
  pub is_odd : Bool
  pub merkle_root : Option Bytes
  pub script_map : List (Bytes × ℕ × List Bytes)

-- A function that answers `none` is one whose error or absence the source handles or unwraps. The
-- clock gives the system's time when the instruction of a number is compiled; `reduced_pow` is the
-- feature of that name.
pub record Library : Type 0 where
  pub reduced_pow : Bool
  pub system_time : ℕ → ℕ
  pub compute_txid : Transaction → Bytes
  pub compute_wtxid : Transaction → Bytes
  pub block_hash : BlockHeader → Bytes
  pub validate_pow : BlockHeader → Bool
  pub witness_root : Block → Option Bytes
  pub compute_merkle_root : Block → Option Bytes
  pub compute_witness_commitment : Bytes → Bytes
  pub short_ids : Block → ℕ → Option HeaderAndShortIds
  pub serialize : Message → Bytes
  pub new_address : SocketAddr → ℕ → Address
  pub murmur3 : Bytes → ℕ → ℕ
  pub sha256 : Bytes → Bytes
  pub push_opcode : Bytes → ℕ → Bytes
  pub push_slice : Bytes → Bytes → Option Bytes
  pub push_int : Bytes → ℕ → Bytes
  pub push_key : Bytes → Bytes → Bytes
  pub new_p2sh : Bytes → Bytes
  pub new_p2pk : Bytes → Bytes
  pub new_p2pkh : Bytes → Bytes
  pub new_p2wpkh : Bytes → Option Bytes
  pub public_key : Bytes → Option Bytes
  pub is_secret_key : Bytes → Bool
  pub x_only_public_key : Bytes → Bytes
  pub new_key_spend : Bytes → SpendInfo
  pub leaf_version : ℕ → Option ℕ
  pub new_leaf_with_ver : Bytes → ℕ → NodeInfo
  pub tap_node_hash : Bytes → Option Bytes
  pub new_hidden_node : Bytes → NodeInfo
  pub combine : NodeInfo → NodeInfo → Option NodeInfo
  pub from_node_info : Bytes → NodeInfo → SpendInfo
  pub control_block : SpendInfo → Bytes → ℕ → Option (List Bytes)
  pub legacy_signature_hash : Transaction → ℕ → Bytes → ℕ → Option Bytes
  pub p2wpkh_signature_hash : Transaction → ℕ → Bytes → ℕ → ℕ → Option Bytes
  pub ecdsa_sighash_type : ℕ → ℕ
  pub sign_ecdsa : Bytes → Bytes → ℕ → Bytes
  pub tap_leaf_hash : Bytes → ℕ → Bytes
  pub script_spend_hash : Transaction → ℕ → List TxOut → Bytes → Option Bytes
  pub key_spend_hash : Transaction → ℕ → List TxOut → Option Bytes
  pub tap_tweak : Bytes → Option Bytes → Bytes
  pub sign_schnorr : Bytes → Bytes → Bytes
