-- ===== src/Compiler/Mining.antt =====
-- Commitments and proof of work: workloads/ir-workload/fuzzamoto/src/test_utils/mining.rs. The
-- builds are release builds, in which the nonce wraps.
pub mod Work
use Prim.Native.Nat.{bit_and}
use bitcoin_antithesis.Prelude.{
  ℕ, zero, suc, ◌+◌, ◌%◌, ◌^◌, Bool, true, false, not, ◌&&◌, pos, List, [], ◌∷◌, ◌++◌, Option, none,
  some, ◌==◌, leb, if◌then◌else◌, length, replicate, get_elem?, get_or, take, set,
}
use bitcoin_antithesis.Compiler.Bitcoin.{Bytes, Library, Transaction, TxOut, Block, BlockHeader}
use bitcoin_antithesis.Compiler.State.{Run, ◌>>=◌, pure, diverges, unwrap, on_option, bytes_eq}

abbrev pub zeros : Bytes
zeros = replicate 32 0

abbrev pub witness_commitment_magic : Bytes
witness_commitment_magic = 0x6a ∷ 0x24 ∷ 0xaa ∷ 0x21 ∷ 0xa9 ∷ 0xed ∷ []

abbrev is_commitment : TxOut → Bool
is_commitment o =
    leb 38 (length o.script_pubkey) && bytes_eq (take 6 o.script_pubkey) witness_commitment_magic

-- The index of the first commitment among the outputs, of which the first has the index `i`.
unfoldable pub find_commitment : ℕ → List TxOut → Option ℕ
find_commitment i [] = none
find_commitment i (o ∷ os) =
    let rest = find_commitment (suc i) os in if is_commitment o then some i else rest

unfoldable pub find_witness_commitment_output : Transaction → Option ℕ
find_witness_commitment_output coinbase = find_commitment 0 coinbase.output

abbrev with_root : Block → Bytes → Block
with_root b root = record b { header = record b.header { merkle_root = root } }

abbrev pub with_nonce : BlockHeader → ℕ → BlockHeader
with_nonce h nonce = record h { nonce = nonce }

module _ (lib : Library) where
  unfoldable pub create_witness_commitment_output : Bytes → TxOut
  create_witness_commitment_output witness_merkle_root = record {
    value = 0;
    script_pubkey = witness_commitment_magic ++ lib.compute_witness_commitment witness_merkle_root;
  }

  abbrev commit_at : Transaction → ℕ → Bytes → Transaction
  commit_at coinbase index root = record coinbase {
    output = set coinbase.output index (create_witness_commitment_output root);
  }

  unfoldable pub fixup_witness : Block → Run Block
  fixup_witness b = do
    coinbase ← unwrap (get_elem? b.txdata 0)
    on_option (find_witness_commitment_output coinbase) (pure b) λ index. do
      root ← unwrap (lib.witness_root b)
      pure (record b { txdata = set b.txdata 0 (commit_at coinbase index root) })

  unfoldable pub fixup_commitments : Block → Run Block
  fixup_commitments b = do
    committed ← fixup_witness b
    root ← unwrap (lib.compute_merkle_root committed)
    pure (with_root committed root)

  -- The test of the loop, for either setting of the feature.
  unfoldable pub needs_work : BlockHeader → Bool
  needs_work h =
      if lib.reduced_pow
      then not (bit_and (get_or (lib.block_hash h) 31 0) 0x80 == 0)
      else not (lib.validate_pow h)

  -- The loop over the nonces, for a number of steps.
  unfoldable pub mine : ℕ → BlockHeader → Option BlockHeader
  mine zero h = none
  mine (suc fuel) h = elim (needs_work h) [
    | false ↦ some h
    | true ↦ mine fuel (with_nonce h ((h.nonce + 1) % 2 ^ 32))
  ]

  -- After 2 ^ 32 steps every nonce has been tried, and the loop repeats for ever.
  unfoldable pub fixup_proof_of_work : BlockHeader → Run BlockHeader
  unfolding mine
  fixup_proof_of_work h = on_option (mine (2 ^ 32) h) diverges pure

  abbrev mined_coinbase : ℕ → Transaction
  mined_coinbase height = record {
    version = pos 1;
    lock_time = 0;
    input =
        record {
          previous_output = (zeros, 0xffffffff);
          script_sig = lib.push_int (lib.push_int [] height) 0xffffffff;
          sequence = 0xffffffff;
          witness = zeros ∷ [];
        }
        ∷ [];
    output =
        record { value = 2500000000; script_pubkey = 0 ∷ 32 ∷ lib.sha256 (0x51 ∷ []) }
        ∷ create_witness_commitment_output zeros
        ∷ [];
  }

  abbrev pub unmined_block : Bytes → ℕ → ℕ → Block
  unmined_block prev_hash height time = record {
    header = record {
      version = pos 5;
      prev_blockhash = prev_hash;
      merkle_root = lib.compute_txid (mined_coinbase height);
      bits = 0x207fffff;
      nonce = 0;
      time = time;
    };
    txdata = mined_coinbase height ∷ [];
  }

  unfoldable pub mine_block : Bytes → ℕ → ℕ → Run Block
  mine_block prev_hash height time = do
    header ← fixup_proof_of_work (unmined_block prev_hash height time).header
    pure (record (unmined_block prev_hash height time) { header = header })
