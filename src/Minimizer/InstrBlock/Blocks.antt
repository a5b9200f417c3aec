-- ===== src/Minimizer/InstrBlock/Blocks.antt =====
-- The blocks that the minimizer finds and nops: workloads/ir-workload/fuzzamoto-ir/src/minimizers/
-- instr_block.rs.
use bitcoin_antithesis.Prelude.{
  ℕ, zero, suc, ◌+◌, ◌<◌, ◌≤◌, ◌≡◌, ◌≢◌, refl, ap, ap₂, subst, sym, ◌∙◌, true, false, List, [], ◌∷◌,
  Option, none, some, ◌⊎◌, inl, inr, ◌==◌, ==_iff, ◌&&◌, leb, ltb, arith, Bool, Bool-cases, length,
  get_elem?, set, get_elem?-set_here, get_elem?-lt, if◌then◌else◌,
}
use bitcoin_antithesis.Partial.{Partial, done}
use bitcoin_antithesis.Operation.Blocks.{is_block_end, is_matching_block_begin}
use bitcoin_antithesis.Instruction.{Instruction, nop_instruction}
use bitcoin_antithesis.Minimizer.InstrBlock.{
  Round, looking, found, visit, search_block, nop_at, nop_each,
}

-- No end stands from one place on and up to another.
abbrev pub NoEnd : List Instruction → ℕ → ℕ → Type 0
NoEnd is from top =
    (k : ℕ) (i : Instruction)
    → from ≤ k
    → k ≤ top
    → get_elem? is k ≡ some i
    → is_block_end i.operation ≡ false

-- No beginning of the kind of `j` stands from one place on and before another.
abbrev pub NoBegin : List Instruction → Instruction → ℕ → ℕ → Type 0
NoBegin is j from below =
    (k : ℕ) (i : Instruction)
    → from ≤ k
    → k < below
    → get_elem? is k ≡ some i
    → is_matching_block_begin j.operation i.operation ≡ false

-- `end` is the last end up to `top`.
abbrev pub IsLastEnd : List Instruction → ℕ → ℕ → Instruction → Type 0
IsLastEnd is top end j =
    (end ≤ top)
    × (get_elem? is end ≡ some j)
    × (is_block_end j.operation ≡ true)
    × NoEnd is (suc end) top

-- The last end up to `top`, and the nearest beginning of its kind before it.
abbrev pub IsBlock : List Instruction → ℕ → ℕ → ℕ → Type 0
IsBlock is top begin end =
    (i : Instruction) × (j : Instruction) × (begin < end)
    × (get_elem? is begin ≡ some i)
    × (is_matching_block_begin j.operation i.operation ≡ true)
    × NoBegin is j (suc begin) end
    × IsLastEnd is top end j

-- The end that the places from `below` on have shown, with no beginning of its kind so far.
abbrev pub IsEnd : List Instruction → ℕ → ℕ → Option ℕ → Type 0
IsEnd is below top none = NoEnd is below top
IsEnd is below top (some end) =
    (j : Instruction) × (below ≤ end) × IsLastEnd is top end j × NoBegin is j below end

-- There is no end up to `top`, or there is no beginning of the kind of the last one before it.
abbrev pub NoBlock : List Instruction → ℕ → Type 0
NoBlock is top = (seen : Option ℕ) × IsEnd is 0 top seen

NoEnd-down :
    (is : List Instruction) (at top : ℕ) (i : Instruction)
    → get_elem? is at ≡ some i
    → is_block_end i.operation ≡ false
    → NoEnd is (suc at) top
    → NoEnd is at top
NoEnd-down is at top i here other later k i' from upto there = elim (Bool-cases (k == at)) [
  | inl same ↦ let equal : k ≡ at = (==_iff k at).0 same in let agree : i ≡ i' = cc in cc
  | inr above ↦ later k i' (ground arith) upto there
]

NoBegin-down :
    (is : List Instruction) (at end : ℕ) (i j : Instruction)
    → get_elem? is at ≡ some i
    → is_matching_block_begin j.operation i.operation ≡ false
    → NoBegin is j (suc at) end
    → NoBegin is j at end
NoBegin-down is at end i j here other later k i' from below there = elim (Bool-cases (k == at)) [
  | inl same ↦ let equal : k ≡ at = (==_iff k at).0 same in let agree : i ≡ i' = cc in cc
  | inr above ↦ later k i' (ground arith) below there
]

abbrev Visits : List Instruction → ℕ → ℕ → Partial Round → Type 0
Visits is at top result =
    ((begin : ℕ) × (end : ℕ) × (result ≡ done (found begin end)) × IsBlock is top begin end)
    ⊎ ((next : Option ℕ) × (result ≡ done (looking next)) × IsEnd is at top next)

visit-Visits :
    (is : List Instruction) (at top : ℕ) (seen : Option ℕ)
    → at ≤ top
    → at < length is
    → IsEnd is (suc at) top seen
    → Visits is at top (visit is at seen)
unfolding visit
visit-Visits is at top none le lt none_later =
    let (i, here) = get_elem?-lt is at lt in
    elim (Bool-cases (is_block_end i.operation)) [
      | inl end ↦ inr (
        some at,
        rw (here, end),
        (
          i,
          omega arith,
          (le, here, end, none_later),
          (λ k i' from below there. absurd (omega arith)),
        ),
      )
      | inr other ↦ inr (none, rw (here, other), NoEnd-down is at top i here other none_later)
    ]
visit-Visits is at top (some end) le lt (j, after, last, none_later) =
    let (i, here) = get_elem?-lt is at lt in
    elim (Bool-cases (is_matching_block_begin j.operation i.operation)) [
      | inl same ↦
          inl (at, end, rw (here, last.1, same), (i, j, omega arith, here, same, none_later, last))
      | inr other ↦ inr (
        some end,
        rw (here, last.1, other),
        (j, omega arith, last, NoBegin-down is at end i j here other none_later),
      )
    ]

abbrev Finds : List Instruction → ℕ → Partial (Option (ℕ × ℕ)) → Type 0
Finds is top result =
    ((result ≡ done none) × NoBlock is top)
    ⊎ ((begin : ℕ) × (end : ℕ) × (result ≡ done (some (begin, end))) × IsBlock is top begin end)

pub search_block-Finds :
    (is : List Instruction) (at top : ℕ) (seen : Option ℕ)
    → at ≤ top
    → at < length is
    → IsEnd is (suc at) top seen
    → Finds is top (search_block is at seen)
unfolding search_block
search_block-Finds is zero top seen le lt ends = elim (visit-Visits is 0 top seen le lt ends) [
  | inl (begin, end, finds, block) ↦ inr (begin, end, rw (search_block, finds), block)
  | inr (next, looks, none_left) ↦ inl (rw (search_block, looks), (next, none_left))
]
search_block-Finds is (suc at) top seen le lt ends =
    elim (visit-Visits is (suc at) top seen le lt ends) [
      | inl (begin, end, finds, block) ↦ inr (begin, end, rw (search_block, finds), block)
      | inr (next, looks, ends') ↦
          rw (search_block, looks)
            (search_block-Finds is at top next (omega arith) (omega arith) ends')
    ]

-- What stands at a place after the block has been nopped.
abbrev pub nopped : Bool → Option Instruction → Option Instruction
nopped inside none = none
nopped inside (some i) = some (if inside then nop_instruction i else i)

get_elem?-set_other {ℓ} :
    {A : Type ℓ} (xs : List A) (k j : ℕ) (y : A) → j ≢ k → get_elem? (set xs k y) j ≡ get_elem? xs j
get_elem?-set_other [] k j y h = refl
get_elem?-set_other (z ∷ xs) zero zero y h = absurd (h refl)
get_elem?-set_other (z ∷ xs) zero (suc j) y h = refl
get_elem?-set_other (z ∷ xs) (suc k) zero y h = refl
get_elem?-set_other (z ∷ xs) (suc k) (suc j) y h =
    get_elem?-set_other xs k j y (λ same. h (ap suc same))

nopped-false : (o : Option Instruction) → nopped false o ≡ o
nopped-false none = refl
nopped-false (some i) = refl

nop_at_here :
    (is : List Instruction) (i : ℕ) (o : Option Instruction)
    → get_elem? is i ≡ o
    → get_elem? (nop_at i o is) i ≡ nopped true o
nop_at_here is i none e = e
nop_at_here is i (some x) e = get_elem?-set_here is i (nop_instruction x) x e

nop_at_other :
    (is : List Instruction) (i j : ℕ) (o : Option Instruction)
    → j ≢ i
    → get_elem? (nop_at i o is) j ≡ get_elem? is j
nop_at_other is i j none other = refl
nop_at_other is i j (some x) other = get_elem?-set_other is i j (nop_instruction x) other

abbrev pub within : ℕ → ℕ → ℕ → Bool
within i count j = leb i j && ltb j (i + count)

within-suc : (i count j : ℕ) → j ≢ i → within (suc i) count j ≡ within i (suc count) j
within-suc i count j differ = elim (Bool-cases (within (suc i) count j)) [
  | inl yes' ↦ ground arith
  | inr no' ↦ ground arith
]

pub nop_each-nopped :
    (i count : ℕ) (is : List Instruction) (j : ℕ)
    → get_elem? (nop_each i count is) j ≡ nopped (within i count j) (get_elem? is j)
unfolding nop_each
nop_each-nopped i zero is j =
    let outside : within i 0 j ≡ false = ground arith in
    rw outside (sym (nopped-false (get_elem? is j)))
nop_each-nopped i (suc count) is j =
    let rest = nop_at i (get_elem? is i) is in
    let later = nop_each-nopped (suc i) count rest j in
    elim (Bool-cases (j == i)) [
      | inl here ↦
          let same : j ≡ i = (==_iff j i).0 here in
          let outside : within (suc i) count j ≡ false = ground arith in
          let inside : within i (suc count) j ≡ true = ground arith in
          let first : nopped (within (suc i) count j) (get_elem? rest j) ≡ get_elem? rest j =
            rw outside (nopped-false (get_elem? rest j)) in
          let second : get_elem? rest j ≡ nopped (within i (suc count) j) (get_elem? is j) =
            rw inside (
              subst (λ k. get_elem? rest k ≡ nopped true (get_elem? is k)) (sym same)
                (nop_at_here is i (get_elem? is i) refl)) in
          later ∙ first ∙ second
      | inr other ↦
          let differ : j ≢ i = λ same. ground arith in
          let agree : within (suc i) count j ≡ within i (suc count) j =
            within-suc i count j differ in
          let unchanged = nop_at_other is i j (get_elem? is i) differ in
          later ∙ ap₂ nopped agree unchanged
    ]
