-- ===== src/Minimizer/Cutting/Search.antt =====
-- The search for a short program ends, with one that passes: workloads/ir-workload/fuzzamoto-ir/src/
-- minimizers/cutting.rs.
use bitcoin_antithesis.Prelude.{
  ℕ, zero, suc, ◌+◌, ◌-◌, ◌*◌, ◌/◌, ◌<◌, ◌≤◌, ◌≡◌, refl, ap, subst, ◌∙◌, true, false, List, [], ◌∷◌,
  none, some, ◌⊎◌, inl, inr, max, ◌==◌, ==_iff, ltb, arith, Bool, Bool-cases, length, take,
}
use bitcoin_antithesis.Partial.{done}
use bitcoin_antithesis.Instruction.{Instruction}
use bitcoin_antithesis.Builder.State.{Program}
use bitcoin_antithesis.Minimizer.Cutting.{
  CuttingMinimizer, new_cutting, cutting_success, cutting_failure, cutting_next, answer, minimize,
}

abbrev pub cut : Program → ℕ → Program
cut p n = record p { instructions = take n p.instructions }

pub record IsSearching (test : Program → Bool) (s : CuttingMinimizer) : Type 0 where
  pub below : s.current ≤ s.chopped
  pub inside : s.chopped ≤ length s.original.instructions
  pub passes : test (cut s.original s.chopped) ≡ true

-- It falls with every answer.
abbrev pub weight : CuttingMinimizer → ℕ
weight s = s.chopped * suc (length s.original.instructions) + (s.chopped - s.current)

next_cases :
    (test : Program → Bool) (s : CuttingMinimizer)
    → IsSearching test s
    → ((s.current ≡ s.chopped) × (cutting_next s ≡ none))
      ⊎ ((s.current < s.chopped) × (cutting_next s ≡ some (cut s.original s.current)))
unfolding cutting_next
next_cases test s searching = elim (Bool-cases (s.current == s.chopped)) [
  | inl same ↦ inl ((==_iff s.current s.chopped).0 same, rw same)
  | inr other ↦
      let lt : s.current < s.chopped = ground (arith, searching.below) in
      let fits : ltb (length s.original.instructions) s.current ≡ false =
        ground (arith, searching.inside) in
      inr (lt, rw (other, fits))
]

mul-lt : (c d m : ℕ) → c < d → c * m + m ≤ d * m
mul-lt c d m lt = grind arith

half_le : (n : ℕ) → n / 2 ≤ n
half_le n = omega arith

answer-IsSearching :
    (test : Program → Bool) (s : CuttingMinimizer)
    → IsSearching test s
    → s.current < s.chopped
    → (t : CuttingMinimizer) × (answer (test (cut s.original s.current)) s ≡ done t)
      × IsSearching test t
      × (t.original ≡ s.original)
      × (weight t < weight s)
unfolding answer cutting_success cutting_failure
answer-IsSearching test s searching lt = elim (Bool-cases (test (cut s.original s.current))) [
  | inl good ↦ (
    record s { current = s.current / 2; chopped = s.current },
    rw good,
    record { below = half_le s.current; inside = omega (arith, searching.inside); passes = good },
    refl,
    omega (
      arith,
      searching.inside,
      mul-lt s.current s.chopped (suc (length s.original.instructions)) lt,
    ),
  )
  | inr bad ↦
      let fits : ltb s.chopped s.current ≡ false = ground arith in
      (
        record s { current = s.current + max ((s.chopped - s.current) / 2) 1 },
        rw (bad, fits),
        record { below = omega arith; inside = searching.inside; passes = searching.passes },
        refl,
        omega arith,
      )
]

-- With more fuel than the weight the search ends, at the length that it has cut the program to.
pub minimize-ends :
    (test : Program → Bool) (fuel : ℕ) (s : CuttingMinimizer)
    → IsSearching test s
    → weight s < fuel
    → (t : CuttingMinimizer) × (minimize test fuel s ≡ done (some t))
      × IsSearching test t
      × (t.current ≡ t.chopped)
      × (t.original ≡ s.original)
unfolding minimize
minimize-ends test zero s searching enough = absurd (omega arith)
minimize-ends test (suc fuel) s searching enough = elim (next_cases test s searching) [
  | inl (ended, nothing) ↦ (s, rw (minimize, nothing), searching, ended, refl)
  | inr (lt, offers) ↦
      let (t, told, searching', same, less) = answer-IsSearching test s searching lt in
      let (r, ends, searching'', ended, same') =
        minimize-ends test fuel t searching' (omega arith) in
      (r, rw (minimize, offers, told) ends, searching'', ended, same' ∙ same)
]

take-length : (is : List Instruction) → take (length is) is ≡ is
take-length [] = refl
take-length (i ∷ is) = ap (λ x. i ∷ x) (take-length is)

start-IsSearching :
    (test : Program → Bool) (p : Program) → test p ≡ true → IsSearching test (new_cutting p)
unfolding new_cutting
start-IsSearching test p good = record {
  below = half_le (length p.instructions);
  inside = omega arith;
  passes = ap (λ is. test (record p { instructions = is })) (take-length p.instructions) ∙ good;
}

-- The minimizer of a program that passes a test ends after at most (n + 1) * (n + 1) programs, where
-- n is the number of instructions, and the beginning of the program to which it has cut it passes
-- the test.
pub minimize-passes :
    (test : Program → Bool) (p : Program)
    → test p ≡ true
    → (let n = length p.instructions in
        (t : CuttingMinimizer) × (minimize test (suc n * suc n) (new_cutting p) ≡ done (some t))
        × (t.chopped ≤ n)
        × (test (cut p t.chopped) ≡ true)
        × (t.current ≡ t.chopped))
unfolding new_cutting
minimize-passes test p good =
    let n = length p.instructions in
    let searching = start-IsSearching test p good in
    let bound : weight (new_cutting p) < suc n * suc n = grind (arith, half_le n) in
    let (t, ends, result, ended, same) =
      minimize-ends test (suc n * suc n) (new_cutting p) searching bound in
    (
      t,
      ends,
      subst (λ x. t.chopped ≤ length x.instructions) same result.inside,
      subst (λ x. test (cut x t.chopped) ≡ true) same result.passes,
      ended,
    )
