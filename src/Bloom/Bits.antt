-- ===== src/Bloom/Bits.antt =====
-- The bits of a byte: workloads/ir-workload/fuzzamoto-ir/src/bloom.rs.
use Prim.Native.Nat.{bit_and, bit_or, bit_and-bitwise}
use bitcoin_antithesis.Prelude.{
  ℕ, zero, suc, ◌/◌, ◌%◌, ◌^◌, ◌<◌, ◌≡◌, refl, Bool, true, false, ◌||◌, ◌==◌, ltb, arith,
  if◌then◌else◌,
}

pub bit_and_seven : (index : ℕ) → bit_and 7 index ≡ index % 8
bit_and_seven index = omega (arith, bit_and-bitwise 7 index)

-- Every value below a bound, checked by evaluation.
holds_below : ℕ → (ℕ → Bool) → Bool
holds_below zero test = true
holds_below (suc n) test = let rest = holds_below n test in if test n then rest else false

holds_below_sound :
    (n : ℕ) (test : ℕ → Bool) (x : ℕ) → holds_below n test ≡ true → x < n → test x ≡ true
unfolding holds_below
holds_below_sound zero test x h below = absurd (omega arith)
holds_below_sound (suc n) test x h below = ground (arith, holds_below_sound n test x)

-- The bit with the number `c` of a byte.
abbrev pub has_bit : ℕ → ℕ → Bool
has_bit byte c = byte / 2 ^ c % 2 == 1

same : Bool → Bool → Bool
same true b = b
same false true = false
same false false = true

raised : ℕ → ℕ → ℕ → Bool
raised byte b c = same (has_bit (bit_or byte (2 ^ b)) c) (c == b || has_bit byte c)

table : holds_below 256 (λ byte. holds_below 8 (λ b. holds_below 8 (λ c. raised byte b c))) ≡ true
unfolding holds_below raised same
table = refl

bytes : holds_below 256 (λ byte. holds_below 8 (λ b. ltb (bit_or byte (2 ^ b)) 256)) ≡ true
unfolding holds_below
bytes = refl

same_sound : (x y : Bool) → same x y ≡ true → x ≡ y
unfolding same
same_sound true y h = ground arith
same_sound false y h = ground arith

-- Raising one bit of a byte changes that bit alone.
pub has_bit-raised :
    (byte b c : ℕ)
    → byte < 256
    → b < 8
    → c < 8
    → has_bit (bit_or byte (2 ^ b)) c ≡ (c == b || has_bit byte c)
unfolding raised
has_bit-raised byte b c hb hc hd = same_sound _ _ (
    holds_below_sound 8 (raised byte b) c
      (holds_below_sound 8 (λ b. holds_below 8 (raised byte b)) b
        (holds_below_sound 256 (λ byte. holds_below 8 (λ b. holds_below 8 (raised byte b))) byte
          table hb)
        hc)
      hd)

pub raised-lt : (byte b : ℕ) → byte < 256 → b < 8 → bit_or byte (2 ^ b) < 256
raised-lt byte b hb hc =
    let below : ltb (bit_or byte (2 ^ b)) 256 ≡ true =
      holds_below_sound 8 (λ b. ltb (bit_or byte (2 ^ b)) 256) b
        (holds_below_sound 256 (λ byte. holds_below 8 (λ b. ltb (bit_or byte (2 ^ b)) 256)) byte
          bytes hb)
        hc in
    ground arith
