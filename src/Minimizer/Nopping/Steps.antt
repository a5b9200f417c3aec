-- ===== src/Minimizer/Nopping/Steps.antt =====
-- What a call of `next` of the nopping minimizer does, and that a failure takes it back:
-- workloads/ir-workload/fuzzamoto-ir/src/minimizers/nopping.rs.
use bitcoin_antithesis.Prelude.{
  ℕ, zero, suc, ◌-◌, ◌<◌, ◌≤◌, ◌≡◌, refl, ap, sym, ◌∙◌, true, false, List, [], ◌∷◌, Option, none,
  some, ◌⊎◌, inl, inr, ◌==◌, ==_iff, arith, Bool-cases, subst, length, get_elem?, set-set,
  length-set, get_elem?-set_below, get_elem?-set_here, get_elem?-lt,
}
use bitcoin_antithesis.Partial.{done}
use bitcoin_antithesis.Instruction.{Instruction, is_noppable, nop_instruction}
use bitcoin_antithesis.Builder.State.{Program}
use bitcoin_antithesis.Minimizer.Nopping.{
  NoppingMinimizer, new_nopping, nopping_failure, put, restore, at_nop, nop_from, next_from,
  is_empty, nopping_next, Next, offer,
}

-- The instructions below the place have not been tried.
abbrev pub bound : Option ℕ → ℕ → ℕ
bound none size = size
bound (some at) size = at

abbrev pub untried : NoppingMinimizer → ℕ
untried s = bound s.current_nop (length s.program.instructions)

-- The instructions that have not been tried are those of the program.
pub record IsTrying (s : NoppingMinimizer) : Type 0 where
  pub sized : length s.current.instructions ≡ length s.program.instructions
  pub fits : untried s ≤ length s.program.instructions
  pub same :
      (k : ℕ)
      → k < untried s
      → get_elem? s.current.instructions k ≡ get_elem? s.program.instructions k

-- No instruction from one place on and before another may be nopped.
abbrev pub NoneNoppable : NoppingMinimizer → ℕ → ℕ → Type 0
NoneNoppable s from below =
    (k : ℕ) (i : Instruction)
    → from ≤ k
    → k < below
    → get_elem? s.program.instructions k ≡ some i
    → is_noppable i ≡ false

-- The last instruction before a place that may be nopped is nopped, and a failure takes it back.
abbrev pub Offers : NoppingMinimizer → ℕ → Next → Type 0
Offers s below result =
    (at : ℕ) × (i : Instruction) × (t : NoppingMinimizer) × (result ≡ offer t)
    × (at < below)
    × (get_elem? s.program.instructions at ≡ some i)
    × (is_noppable i ≡ true)
    × NoneNoppable s (suc at) below
    × (t ≡ put at (nop_instruction i) (at_nop at s))
    × IsTrying t
    × (nopping_failure t ≡ done (at_nop at s))

-- The instructions up to a place are those of the program.
abbrev Agrees : NoppingMinimizer → ℕ → Type 0
Agrees s below =
    (length s.current.instructions ≡ length s.program.instructions)
    × (below ≤ length s.program.instructions)
    × ((k : ℕ)
        → k < below
        → get_elem? s.current.instructions k ≡ get_elem? s.program.instructions k)

abbrev nopped_at : ℕ → Instruction → NoppingMinimizer → NoppingMinimizer
nopped_at at i s = put at (nop_instruction i) (at_nop at s)

nopping_failure-nopped_at :
    (s : NoppingMinimizer) (at : ℕ) (i : Instruction)
    → get_elem? s.program.instructions at ≡ some i
    → get_elem? s.current.instructions at ≡ some i
    → nopping_failure (nopped_at at i s) ≡ done (at_nop at s)
unfolding nopping_failure restore
nopping_failure-nopped_at s at i original current =
    rw (original, get_elem?-set_here s.current.instructions at (nop_instruction i) i current)
      (ap (λ is. done (record (at_nop at s) { current = record s.current { instructions = is } }))
        (set-set s.current.instructions at (nop_instruction i) i current))

offer_here :
    (s : NoppingMinimizer) (at : ℕ) (i : Instruction) (result : Next)
    → Agrees s (suc at)
    → get_elem? s.current.instructions at ≡ some i
    → is_noppable i ≡ true
    → result ≡ offer (nopped_at at i s)
    → Offers s (suc at) result
offer_here s at i result (sized, fits, same) found may offers =
    let original : get_elem? s.program.instructions at ≡ some i =
      sym (same at (omega arith)) ∙ found in
    (
      at,
      i,
      nopped_at at i s,
      offers,
      omega arith,
      original,
      may,
      (λ k j after before found'. absurd (omega arith)),
      refl,
      record {
        sized = length-set s.current.instructions at (nop_instruction i) ∙ sized;
        fits = omega arith;
        same = λ k (h : k < at).
            get_elem?-set_below s.current.instructions at k (nop_instruction i) h
            ∙ same k (omega arith);
      },
      nopping_failure-nopped_at s at i original found,
    )

-- What a search for an instruction to nop ends with.
abbrev pub Searches : NoppingMinimizer → ℕ → Next → Type 0
Searches s below result =
    Offers s below result
    ⊎ ((t : NoppingMinimizer) × (result ≡ done (none, t)) × NoneNoppable s 0 below)

NoneNoppable-suc :
    (s : NoppingMinimizer) (from at : ℕ) (i : Instruction)
    → get_elem? s.program.instructions at ≡ some i
    → is_noppable i ≡ false
    → NoneNoppable s from at
    → NoneNoppable s from (suc at)
NoneNoppable-suc s from at i found never others k j after lt found' = elim (Bool-cases (k == at)) [
  | inl here ↦ let same : k ≡ at = (==_iff k at).0 here in let agree : i ≡ j = cc in cc
  | inr below ↦ others k j after (ground arith) found'
]

Offers-suc :
    (s : NoppingMinimizer) (at : ℕ) (i : Instruction) (result : Next)
    → get_elem? s.program.instructions (suc at) ≡ some i
    → is_noppable i ≡ false
    → Offers (at_nop (suc at) s) (suc at) result
    → Offers s (suc (suc at)) result
Offers-suc s at i result here never (k, j, t, offers, lt, found, may, later, is, trying, back) = (
  k,
  j,
  t,
  offers,
  omega arith,
  found,
  may,
  NoneNoppable-suc s (suc k) (suc at) i here never later,
  is,
  trying,
  back,
)

nop_from-Searches :
    (at : ℕ) (s : NoppingMinimizer) → Agrees s (suc at) → Searches s (suc at) (nop_from at s)
unfolding nop_from
nop_from-Searches zero s agrees =
    let (i, found) = get_elem?-lt s.current.instructions 0 (omega (arith, agrees.0, agrees.1)) in
    elim (Bool-cases (is_noppable i)) [
      | inl may ↦ inl (offer_here s 0 i (nop_from 0 s) agrees found may (rw (nop_from, found, may)))
      | inr never ↦ inr (
        at_nop 0 s,
        rw (nop_from, found, never),
        NoneNoppable-suc s 0 0 i (sym (agrees.2 0 (omega arith)) ∙ found) never
            (λ k j after lt found'. absurd (omega arith)),
      )
    ]
nop_from-Searches (suc at) s agrees =
    let (i, found) =
      get_elem?-lt s.current.instructions (suc at) (omega (arith, agrees.0, agrees.1)) in
    elim (Bool-cases (is_noppable i)) [
      | inl may ↦ inl (
          offer_here s (suc at) i (nop_from (suc at) s) agrees found may
            (rw (nop_from, found, may)))
      | inr never ↦
          let again : nop_from (suc at) s ≡ nop_from at (at_nop (suc at) s) =
            rw (nop_from, found, never) in
          let original : get_elem? s.program.instructions (suc at) ≡ some i =
            sym (agrees.2 (suc at) (omega arith)) ∙ found in
          let fewer : Agrees (at_nop (suc at) s) (suc at) =
            (agrees.0, omega (arith, agrees.1), (λ k lt. agrees.2 k (omega arith))) in
          elim (nop_from-Searches at (at_nop (suc at) s) fewer) [
            | inl offers ↦ inl (
                rw again
                  (Offers-suc s at i (nop_from at (at_nop (suc at) s)) original never offers))
            | inr (t, ends, others) ↦
                inr (t, again ∙ ends, NoneNoppable-suc s 0 (suc at) i original never others)
          ]
    ]

lt_empty :
    (is : List Instruction) (k : ℕ) {i : Instruction}
    → is_empty is ≡ true
    → get_elem? is k ≡ some i
    → suc k ≤ 0
lt_empty [] k e found = cc
lt_empty (_ ∷ _) k e found = cc

nonempty : (is : List Instruction) → is_empty is ≡ false → 1 ≤ length is
nonempty [] h = cc
nonempty (_ ∷ _) h = omega arith

next_from-Searches :
    (cursor : Option ℕ) (s : NoppingMinimizer)
    → 1 ≤ length s.program.instructions
    → Agrees s (bound cursor (length s.program.instructions))
    → Searches s (bound cursor (length s.program.instructions)) (next_from cursor s)
next_from-Searches (some zero) s some_left agrees =
    inr (s, refl, (λ k i after lt found. absurd (omega arith)))
next_from-Searches (some (suc at)) s some_left agrees = nop_from-Searches at s agrees
next_from-Searches none s some_left agrees =
    let last = length s.program.instructions - 1 in
    let all : suc last ≡ length s.program.instructions = omega arith in
    subst (λ n. Searches s n (nop_from last s)) all
      (nop_from-Searches last s (subst (Agrees s) (sym all) agrees))

-- A call of `next` does not panic. It nops the last instruction that has not been tried and may be
-- nopped, offers the program, and a failure puts the instruction back; or it ends, and then no
-- instruction that has not been tried may be nopped. The places go down with every offer.
pub nopping_next-Searches :
    (s : NoppingMinimizer) → IsTrying s → Searches s (untried s) (nopping_next s)
unfolding nopping_next
nopping_next-Searches s trying = elim (Bool-cases (is_empty s.program.instructions)) [
  | inl empty ↦ inr (
    s,
    rw empty,
    (λ k i after lt found.
        absurd (omega (arith, trying.fits, lt_empty s.program.instructions k empty found))),
  )
  | inr more ↦ rw more (
      next_from-Searches s.current_nop s (nonempty s.program.instructions more)
        (trying.sized, trying.fits, trying.same))
]

-- At first every instruction of the program is to be tried.
pub new_nopping-IsTrying : (p : Program) → IsTrying (new_nopping p)
unfolding new_nopping
new_nopping-IsTrying p = record { sized = refl; fits = omega arith; same = λ k lt. refl }
