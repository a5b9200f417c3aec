-- ===== src/Bloom/Inserted.antt =====
-- The bloom filter against the bits that it should have: workloads/ir-workload/fuzzamoto-ir/src/
-- bloom.rs.
use Prim.Native.Nat.{bit_or}
use mathlib.Core.Option.{some-injective}
use native.Mathlib.Nat.{mod-lt}
use native.Mathlib.Decide.{ℕ_discrete}
use bitcoin_antithesis.Prelude.{
  ℕ, zero, suc, ◌*◌, ◌/◌, ◌%◌, ◌^◌, ◌<◌, ◌≡◌, ◌≢◌, refl, ap, ◌∙◌, Bool, true, false, ◌||◌, List, [],
  ◌∷◌, some, ◌==◌, length, get_elem?, get_or, set, length-set, get_elem?-lt, All, arith,
}
use bitcoin_antithesis.Partial.{done}
use bitcoin_antithesis.Bloom.{raise_bit, hash, insert_from, filter_insert}
use bitcoin_antithesis.Bloom.Bits.{bit_and_seven, has_bit, has_bit-raised, raised-lt}

abbrev pub IsBytes : List ℕ → Type 0
IsBytes = All (λ byte. byte < 256)

-- The bit with the number `j` of a filter; there is none past its end.
abbrev pub is_set : List ℕ → ℕ → Bool
is_set filter j = has_bit (get_or filter (j / 8) 0) (j % 8)

get_or-set_here : (xs : List ℕ) (k v : ℕ) → k < length xs → get_or (set xs k v) k 0 ≡ v
get_or-set_here [] k v h = absurd (omega arith)
get_or-set_here (x ∷ xs) zero v h = refl
get_or-set_here (x ∷ xs) (suc k) v h = get_or-set_here xs k v (omega arith)

get_or-set_other : (xs : List ℕ) (k i v : ℕ) → i ≢ k → get_or (set xs k v) i 0 ≡ get_or xs i 0
get_or-set_other [] k i v h = refl
get_or-set_other (x ∷ xs) zero zero v h = absurd (h refl)
get_or-set_other (x ∷ xs) zero (suc i) v h = refl
get_or-set_other (x ∷ xs) (suc k) zero v h = refl
get_or-set_other (x ∷ xs) (suc k) (suc i) v h = get_or-set_other xs k i v (λ e. h (ap suc e))

get_or-found :
    (xs : List ℕ) (i : ℕ) {x : ℕ}
    → get_elem? xs i ≡ some x
    → IsBytes xs
    → (get_or xs i 0 ≡ x) × (x < 256)
get_or-found [] i e h = cc
get_or-found (y ∷ xs) zero e h = let same : y ≡ _ = some-injective y _ e in (same, rw (← same) h.0)
get_or-found (y ∷ xs) (suc i) e h = get_or-found xs i e h.1

set-IsBytes : (xs : List ℕ) (k v : ℕ) → v < 256 → IsBytes xs → IsBytes (set xs k v)
set-IsBytes [] k v hv h = tt
set-IsBytes (x ∷ xs) zero v hv h = (hv, h.1)
set-IsBytes (x ∷ xs) (suc k) v hv h = (h.0, set-IsBytes xs k v hv h.1)

-- One bit is raised, and no other is changed.
abbrev pub Raised : List ℕ → List ℕ → (ℕ → Bool) → Type 0
Raised f g more =
    (length g ≡ length f) × IsBytes g × ((j : ℕ) → is_set g j ≡ (more j || is_set f j))

same_byte : (j index : ℕ) → j / 8 ≡ index / 8 → (j == index) ≡ (j % 8 == index % 8)
same_byte j index e = ground arith

other_byte : (j index : ℕ) → j / 8 ≢ index / 8 → (j == index) ≡ false
other_byte j index e = ground arith

module _ (f : List ℕ) (index byte : ℕ) where
  abbrev raised : List ℕ
  raised = set f (index / 8) (bit_or byte (2 ^ (index % 8)))

  raised-is_set :
      index / 8 < length f
      → get_or f (index / 8) 0 ≡ byte
      → byte < 256
      → (j : ℕ) → is_set raised j ≡ (j == index || is_set f j)
  raised-is_set inside here fits j = elim (ℕ_discrete (j / 8) (index / 8)) [
    | yes e ↦
        rw
          (
            e,
            get_or-set_here f (index / 8) (bit_or byte (2 ^ (index % 8))) inside,
            here,
            same_byte j index e,
          )
          (has_bit-raised byte (index % 8) (j % 8) fits (omega arith) (omega arith))
    | no other ↦
        rw
          (
            get_or-set_other f (index / 8) (j / 8) (bit_or byte (2 ^ (index % 8))) other,
            other_byte j index other,
          )
          refl
  ]

raise_bit-Raised :
    (f : List ℕ) (index : ℕ)
    → IsBytes f
    → index < length f * 8
    → (g : List ℕ) × (raise_bit f index ≡ done g) × Raised f g (λ j. j == index)
unfolding raise_bit
raise_bit-Raised f index h inside =
    let (byte, there) = get_elem?-lt f (index / 8) (omega arith) in
    let (here, fits) = get_or-found f (index / 8) there h in
    (
      raised f index byte,
      rw (raise_bit, there, bit_and_seven index) refl,
      (
        length-set f (index / 8) _,
        set-IsBytes f (index / 8) _ (raised-lt byte (index % 8) fits (omega arith)) h,
        raised-is_set f index byte (omega arith) here fits,
      ),
    )

-- The bits of the hash functions with the numbers from `i` on.
module _ (murmur3 : List ℕ → ℕ → ℕ) (key : List ℕ) (size : ℕ) where
  abbrev pub bit_of : ℕ → ℕ
  bit_of i = murmur3 key (i * 0xfba4c795 % 2 ^ 32) % (size * 8)

  abbrev pub is_hashed : ℕ → ℕ → ℕ → Bool
  is_hashed i zero j = false
  is_hashed i (suc n) j = j == bit_of i || is_hashed (suc i) n j

  hash-done : (i : ℕ) → 0 < size → size < 2 ^ 29 → hash murmur3 i size key ≡ done (bit_of i)
  unfolding hash
  hash-done i h k =
      let whole : size * 8 % 2 ^ 32 ≡ size * 8 = omega arith in
      let positive : (size * 8 == 0) ≡ false = ground arith in rw (whole, positive) refl

or_swap : (x y z : Bool) → (x || (y || z)) ≡ ((y || x) || z)
or_swap true true z = refl
or_swap true false z = refl
or_swap false true z = refl
or_swap false false z = refl

module _ (murmur3 : List ℕ → ℕ → ℕ) (key : List ℕ) where
  insert_from-Raised :
      (f : List ℕ) (i n : ℕ)
      → IsBytes f
      → 0 < length f
      → length f < 2 ^ 29
      → (g : List ℕ) × (insert_from murmur3 i n key f ≡ done g)
        × Raised f g (is_hashed murmur3 key (length f) i n)
  unfolding insert_from
  insert_from-Raised f i zero h nonempty small = (f, refl, (refl, h, λ j. refl))
  insert_from-Raised f i (suc n) h nonempty small =
      let index = bit_of murmur3 key (length f) i in
      let inside : index < length f * 8 = mod-lt _ (omega arith) in
      let (g, raises, (same, whole, bits)) = raise_bit-Raised f index h inside in
      let (g2, rest, (same2, whole2, bits2)) =
        insert_from-Raised g (suc i) n whole (rw same nonempty) (rw same small) in
      (
        g2,
        rw (hash-done murmur3 key (length f) i nonempty small, raises) rest,
        (
          same2 ∙ same,
          whole2,
          λ j.
              rw (bits2 j, bits j, same)
                (or_swap (is_hashed murmur3 key (length f) (suc i) n j) (j == index) (is_set f j)),
        ),
      )

  -- Whatever murmur3 is, inserting a key into a filter of bytes that is not empty and shorter than
  -- 2 ^ 29 bytes does not panic and gives a filter of the same length, in which exactly the bits of the
  -- hash functions are set besides those that were.
  pub filter_insert-Raised :
      (f : List ℕ) (n_hash_funcs : ℕ)
      → IsBytes f
      → 0 < length f
      → length f < 2 ^ 29
      → (g : List ℕ) × (filter_insert murmur3 f n_hash_funcs key ≡ done g)
        × Raised f g (is_hashed murmur3 key (length f) 0 n_hash_funcs)
  unfolding filter_insert insert_from
  filter_insert-Raised [] n_hash_funcs h nonempty small = absurd (omega arith)
  filter_insert-Raised (byte ∷ bytes) n_hash_funcs h nonempty small =
      insert_from-Raised (byte ∷ bytes) 0 n_hash_funcs h nonempty small
