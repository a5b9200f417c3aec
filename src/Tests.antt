-- ===== src/Tests.antt =====
-- Small programs on which the operations run: an inventory is built and sent over a connection.
pub mod Runs
pub mod Compiled
mod Mined
mod Outputs
pub mod Splices
pub mod Nops
pub mod Minimizers
pub mod Rewrites
pub mod Queries
pub mod Addresses
use bitcoin_antithesis.Prelude.{ℕ, pos, List, [], ◌∷◌, Option, some, none}
use bitcoin_antithesis.Operation.{
  Operation, HeaderPayload, TxoPayload, load_header, send_header, load_txo, nop, load_connection,
  begin_build_inventory, end_build_inventory, send_inv, send_get_addr, load_time, load_duration,
  advance_time, load_tx_version, load_lock_time, load_sequence, begin_build_tx,
  begin_build_tx_inputs, add_tx_input, end_build_tx_inputs, begin_build_tx_outputs,
  end_build_tx_outputs, end_build_tx,
}
use bitcoin_antithesis.Instruction.{Instruction}
use bitcoin_antithesis.Builder.State.{ProgramContext, Program}

abbrev pub one_node : ProgramContext
one_node = record { num_nodes = 1; num_connections = 2; timestamp = 1296688802 }

abbrev pub instr : List ℕ → Operation → Instruction
instr inputs op = record { inputs = inputs; operation = op }

abbrev pub send_inventory : Program
send_inventory = record {
  instructions =
      instr [] (load_connection 0)
      ∷ instr [] begin_build_inventory
      ∷ instr (1 ∷ []) end_build_inventory
      ∷ instr (0 ∷ 2 ∷ []) send_inv
      ∷ [];
  context = one_node;
}

abbrev pub ask_addresses : Program
ask_addresses = record {
  instructions = instr [] (load_connection 1) ∷ instr (0 ∷ []) send_get_addr ∷ [];
  context = one_node;
}

-- The inventory again, after an instruction that has been nopped.
abbrev pub after_nop : Program
after_nop = record {
  instructions =
      instr [] (load_connection 0)
      ∷ instr [] (nop 1 0)
      ∷ instr [] begin_build_inventory
      ∷ instr (2 ∷ []) end_build_inventory
      ∷ instr (0 ∷ 3 ∷ []) send_inv
      ∷ [];
  context = one_node;
}

abbrev pub two_connections : Program
two_connections = record {
  instructions =
      instr [] (load_connection 0)
      ∷ instr [] (load_connection 1)
      ∷ instr (0 ∷ []) send_get_addr
      ∷ [];
  context = one_node;
}

abbrev header : HeaderPayload
header = record {
  prev = [];
  merkle_root = [];
  nonce = 2;
  bits = 545259519;
  time = 1296688602;
  version = pos 1;
  height = 0;
}

abbrev pub announce_header : Program
announce_header = record {
  instructions =
      instr [] (load_connection 0)
      ∷ instr [] (load_header header)
      ∷ instr (0 ∷ 1 ∷ []) send_header
      ∷ [];
  context = one_node;
}

abbrev coin : TxoPayload
coin = record {
  outpoint = ([], 0);
  value = 5000000000;
  script_pubkey = [];
  spending_script_sig = [];
  spending_witness = [];
}

abbrev pub load_coin : Program
load_coin = record { instructions = instr [] (load_txo coin) ∷ []; context = one_node }

-- Time is advanced, and then a second connection loaded, which has the variable 4 for the builder.
abbrev pub advancing : Program
advancing = record {
  instructions =
      instr [] (load_connection 0)
      ∷ instr [] (load_time 5)
      ∷ instr [] (load_duration (record { secs = 7; nanos = 0 }))
      ∷ instr (1 ∷ 2 ∷ []) advance_time
      ∷ instr [] (load_connection 1)
      ∷ instr (4 ∷ []) send_get_addr
      ∷ [];
  context = one_node;
}

-- A choice: the last one.
abbrev pub last_of {ℓ} : {A : Type ℓ} → List A → Option A
last_of [] = none
last_of (x ∷ []) = some x
last_of (x ∷ y ∷ ys) = last_of (y ∷ ys)

-- A transaction that spends a coin.
abbrev pub spend_coin : Program
spend_coin = record {
  instructions =
      instr [] (load_tx_version 2)
      ∷ instr [] (load_lock_time 0)
      ∷ instr [] (load_sequence 0xffffffff)
      ∷ instr [] (load_txo coin)
      ∷ instr (0 ∷ 1 ∷ []) begin_build_tx
      ∷ instr [] begin_build_tx_inputs
      ∷ instr (5 ∷ 3 ∷ 2 ∷ []) add_tx_input
      ∷ instr (5 ∷ []) end_build_tx_inputs
      ∷ instr (6 ∷ []) begin_build_tx_outputs
      ∷ instr (7 ∷ []) end_build_tx_outputs
      ∷ instr (4 ∷ 6 ∷ 8 ∷ []) end_build_tx
      ∷ [];
  context = one_node;
}
