-- ===== src/Builder/Simulation/Made.antt =====
-- The new variables of the two builders agree on the scopes of the same depth.
use bitcoin_antithesis.Prelude.{
  ℕ, ◌≤◌, ◌<◌, ◌≡◌, refl, sym, ◌∙◌, true, List, [], ◌++◌, map, ◌⊎◌, inl, inr, arith, length,
  length-append, length-map,
}
use bitcoin_antithesis.Operation.{Operation, nop}
use bitcoin_antithesis.Operation.Blocks.{is_block_begin}
use bitcoin_antithesis.Operation.Signature.{get_output_variables, get_inner_output_variables}
use bitcoin_antithesis.Builder.State.{ScopedVariable}
use bitcoin_antithesis.Builder.Append.{scoped, scope_for}
use bitcoin_antithesis.Builder.Invariant.Effects.{scope_for-begin, scope_for-le}
use bitcoin_antithesis.Builder.Simulation.Vars.{Parallel, Parallel-scoped, Parallel-append}

pub scope_for_cases :
    (op : Operation) → ((n : ℕ) → scope_for op n ≡ n) ⊎ ((n : ℕ) → scope_for op n ≡ 0)
unfolding scope_for
scope_for_cases (nop _ _) = inr (λ n. refl)
scope_for_cases _ = inl (λ n. refl)

inner_cases :
    (op : Operation)
    → (is_block_begin op ≡ true)
      ⊎ (get_inner_output_variables op ≡ [])
      ⊎ ((n : ℕ) → scope_for op n ≡ 0)
unfolding is_block_begin get_inner_output_variables scope_for
inner_cases (nop _ _) = inr (inr (λ n. refl))
inner_cases _ = first_of (search (inr, inl, refl), search (inl, refl))

abbrev pub made_at : Operation → ℕ → ℕ → List ScopedVariable
made_at op outer inner =
    map (scoped (scope_for op outer)) (get_output_variables op)
    ++ map (scoped (scope_for op inner)) (get_inner_output_variables op)

pub length-made_at :
    (op : Operation) (o n o' n' : ℕ) → length (made_at op o n) ≡ length (made_at op o' n')
length-made_at op o n o' n' = omega (
  arith,
  length-append (map (scoped (scope_for op o)) (get_output_variables op))
      (map (scoped (scope_for op n)) (get_inner_output_variables op)),
  length-append (map (scoped (scope_for op o')) (get_output_variables op))
      (map (scoped (scope_for op n')) (get_inner_output_variables op)),
  length-map (scoped (scope_for op o)) (get_output_variables op),
  length-map (scoped (scope_for op o')) (get_output_variables op),
  length-map (scoped (scope_for op n)) (get_inner_output_variables op),
  length-map (scoped (scope_for op n')) (get_inner_output_variables op),
)

module _ (op : Operation) (o o' n n' : ℕ) where
  outputs-same :
      length (map (scoped (scope_for op o)) (get_output_variables op))
      ≡ length (map (scoped (scope_for op o')) (get_output_variables op))
  outputs-same =
      length-map (scoped (scope_for op o)) (get_output_variables op)
      ∙ sym (length-map (scoped (scope_for op o')) (get_output_variables op))

  outer-same :
      (id id' : ℕ) → 1 ≤ id → (o ≡ id → o' ≡ id') → scope_for op o ≡ id → scope_for op o' ≡ id'
  outer-same id id' positive same e = elim (scope_for_cases op) [
    | inl kept ↦ kept o' ∙ same (sym (kept o) ∙ e)
    | inr zeroed ↦ absurd (omega (arith, zeroed o))
  ]

  inner-old :
      (id id' : ℕ)
      → 1 ≤ id
      → (is_block_begin op ≡ true → id < n)
      → Parallel id id'
          (map (scoped (scope_for op n)) (get_inner_output_variables op))
          (map (scoped (scope_for op n')) (get_inner_output_variables op))
  inner-old id id' positive inside = elim (inner_cases op) [
    | inl begins ↦
        Parallel-scoped id id' (scope_for op n) (scope_for op n') (get_inner_output_variables op)
          (λ e. absurd (omega (arith, inside begins, scope_for-begin op n begins)))
    | inr (inl empty) ↦ rw empty (λ k v e. cc)
    | inr (inr zeroed) ↦
        Parallel-scoped id id' (scope_for op n) (scope_for op n') (get_inner_output_variables op)
          (λ e. absurd (omega (arith, zeroed n)))
  ]

  -- On a scope that was open before the instruction.
  pub old-Parallel :
      (id id' : ℕ)
      → 1 ≤ id
      → (o ≡ id → o' ≡ id')
      → (is_block_begin op ≡ true → id < n)
      → Parallel id id' (made_at op o n) (made_at op o' n')
  old-Parallel id id' positive same inside =
      Parallel-append id id' _ _ _ _ outputs-same
        (Parallel-scoped id id' (scope_for op o) (scope_for op o') (get_output_variables op)
          (outer-same id id' positive same))
        (inner-old id id' positive inside)

  -- On the scope that the instruction opens.
  pub new-Parallel :
      is_block_begin op ≡ true → o < n → Parallel n n' (made_at op o n) (made_at op o' n')
  new-Parallel begins below =
      Parallel-append n n' _ _ _ _ outputs-same
        (Parallel-scoped n n' (scope_for op o) (scope_for op o') (get_output_variables op)
          (λ e. absurd (omega (arith, scope_for-le op o))))
        (Parallel-scoped n n' (scope_for op n) (scope_for op n') (get_inner_output_variables op)
          (λ _. scope_for-begin op n' begins))
