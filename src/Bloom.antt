-- ===== src/Bloom.antt =====
-- The bloom filter of `filterload`: workloads/ir-workload/fuzzamoto-ir/src/bloom.rs. The hash of the
-- crate murmurs is a parameter.
pub mod Bits
pub mod Inserted
use Prim.Native.Nat.{bit_and, bit_or}
use bitcoin_antithesis.Prelude.{
  ℕ, zero, suc, ◌*◌, ◌/◌, ◌%◌, ◌^◌, List, [], ◌∷◌, none, some, ◌==◌, if◌then◌else◌, length,
  get_elem?, set,
}
use bitcoin_antithesis.Partial.{Partial, done, panics}

-- `data[index >> 3] |= 1 << (7 & index)`; an index out of bounds panics.
unfoldable pub raise_bit : List ℕ → ℕ → Partial (List ℕ)
raise_bit filter index = elim (get_elem? filter (index / 8)) [
  | none ↦ panics
  | some byte ↦ done (set filter (index / 8) (bit_or byte (2 ^ bit_and 7 index)))
]

abbrev raise_at : List ℕ → Partial ℕ → Partial (List ℕ)
raise_at filter panics = panics
raise_at filter (done index) = raise_bit filter index

abbrev and_insert : (List ℕ → Partial (List ℕ)) → Partial (List ℕ) → Partial (List ℕ)
and_insert next panics = panics
and_insert next (done filter) = next filter

module _ (murmur3_x86_32 : List ℕ → ℕ → ℕ) where
  -- A remainder by 0 panics.
  unfoldable pub hash : ℕ → ℕ → List ℕ → Partial ℕ
  hash hashnum size key =
      if size * 8 % 2 ^ 32 == 0
      then panics
      else done (murmur3_x86_32 key (hashnum * 0xfba4c795 % 2 ^ 32) % (size * 8 % 2 ^ 32))

  -- The loop, with the number of the next hash function and how many remain.
  unfoldable pub insert_from : ℕ → ℕ → List ℕ → List ℕ → Partial (List ℕ)
  insert_from i zero key filter = done filter
  insert_from i (suc n) key filter =
      and_insert (insert_from (suc i) n key) (raise_at filter (hash i (length filter) key))

  unfoldable pub filter_insert : List ℕ → ℕ → List ℕ → Partial (List ℕ)
  unfolding insert_from
  filter_insert [] n_hash_funcs key = done []
  filter_insert (byte ∷ bytes) n_hash_funcs key = insert_from 0 n_hash_funcs key (byte ∷ bytes)
