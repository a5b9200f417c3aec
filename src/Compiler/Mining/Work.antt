-- ===== src/Compiler/Mining/Work.antt =====
-- The search for a nonce ends exactly if there is one: workloads/ir-workload/fuzzamoto/src/test_utils/
-- mining.rs.
use mathlib.Core.Option.{some-injective}
use bitcoin_antithesis.Prelude.{
  subst, ℕ, zero, suc, ◌+◌, ◌-◌, ◌%◌, ◌^◌, ◌<◌, ◌≡◌, refl, ◌⊎◌, inl, inr, true, false, none, some,
  Bool-cases, Option-cases, arith,
}
use bitcoin_antithesis.Compiler.Bitcoin.{Library, BlockHeader}
use bitcoin_antithesis.Compiler.State.{Compiler, ok, diverge, on_option, pure, diverges}
use bitcoin_antithesis.Compiler.Mining.{with_nonce, needs_work, mine, fixup_proof_of_work}

-- The nonce after `k` steps.
abbrev nonce_after : ℕ → BlockHeader → ℕ
nonce_after k h = (h.nonce + k) % 2 ^ 32

abbrev next_header : BlockHeader → BlockHeader
next_header h = with_nonce h (nonce_after 1 h)

module _ (lib : Library) where
  -- The header has the work, and is `h` but for the nonce.
  abbrev pub IsMinedFrom : BlockHeader → BlockHeader → Type 0
  IsMinedFrom h m = (needs_work lib m ≡ false) × (m ≡ with_nonce h m.nonce) × (m.nonce < 2 ^ 32)

  mine-some :
      (fuel : ℕ) (h m : BlockHeader) → h.nonce < 2 ^ 32 → mine lib fuel h ≡ some m → IsMinedFrom h m
  unfolding mine
  mine-some zero h m fits e = cc
  mine-some (suc fuel) h m fits e = elim (Bool-cases (needs_work lib h)) [
    | inl works ↦ mine-some fuel (next_header h) m (omega arith) (rw (mine, works) at e)
    | inr rests ↦
        subst (IsMinedFrom h) (some-injective h m (rw (mine, rests) at e)) (rests, refl, fits)
  ]

  mine-none :
      (fuel : ℕ) (h : BlockHeader)
      → h.nonce < 2 ^ 32
      → mine lib fuel h ≡ none
      → (k : ℕ) → k < fuel
      → needs_work lib (with_nonce h (nonce_after k h)) ≡ true
  unfolding mine
  mine-none zero h fits e k below = absurd (omega arith)
  mine-none (suc fuel) h fits e zero below =
      let same : nonce_after 0 h ≡ h.nonce = omega arith in
      elim (Bool-cases (needs_work lib h)) [
        | inl works ↦ rw same works
        | inr rests ↦ let found : some h ≡ none = rw (mine, rests) at e in cc
      ]
  mine-none (suc fuel) h fits e (suc k) below =
      let same : nonce_after k (next_header h) ≡ nonce_after (suc k) h = omega arith in
      elim (Bool-cases (needs_work lib h)) [
        | inl works ↦
            rw (← same)
              (mine-none fuel (next_header h) (omega arith) (rw (mine, works) at e) k (omega arith))
        | inr rests ↦ let found : some h ≡ none = rw (mine, rests) at e in cc
      ]

  -- From a header whose nonce has 32 bits, the search ends with a header that has the work and is the
  -- same but for the nonce, or no nonce of 32 bits has the work and the loop runs for ever.
  pub fixup_proof_of_work_cases :
      (h : BlockHeader) (s : Compiler)
      → h.nonce < 2 ^ 32
      → ((m : BlockHeader) × (fixup_proof_of_work lib h s ≡ (ok m, s)) × IsMinedFrom h m)
        ⊎ ((fixup_proof_of_work lib h s ≡ (diverge, s))
            × ((nonce : ℕ) → nonce < 2 ^ 32 → needs_work lib (with_nonce h nonce) ≡ true))
  unfolding fixup_proof_of_work on_option pure diverges
  fixup_proof_of_work_cases h s fits = elim (Option-cases (mine lib (2 ^ 32) h)) [
    | inl never ↦ inr (
      rw never refl,
      λ nonce below.
          let same : nonce_after ((nonce + 2 ^ 32 - h.nonce) % 2 ^ 32) h ≡ nonce = omega arith in
          rw (← same)
            (mine-none (2 ^ 32) h fits never ((nonce + 2 ^ 32 - h.nonce) % 2 ^ 32) (omega arith)),
    )
    | inr (m, mined) ↦ inl (m, rw mined refl, mine-some (2 ^ 32) h m fits mined)
  ]
