-- ===== src/Compiler/Grows/Indices.antt =====
-- The indices that the metadata keeps: compiler.rs of workloads/ir-workload/fuzzamoto-ir/src.
use bitcoin_antithesis.Prelude.{
  ℕ, zero, suc, ◌-◌, ◌<◌, ◌≤◌, ◌≡◌, refl, ap, true, not, ◌++◌, inl, inr, Bool-cases, arith, length,
  length-append, replicate, All, All-append, All-mono,
}
use bitcoin_antithesis.Operation.{Operation}
use bitcoin_antithesis.Compiler.State.{Compiler, update_metadata}
use bitcoin_antithesis.Compiler.Compile.{
  is_probe, is_probe_action, count_if-append, actions_of, record_indices,
}
use bitcoin_antithesis.Compiler.Records.{Grows}

-- Each variable, and each action that is no probe, has the index of an instruction that was compiled.
pub record IsIndexed (s : Compiler) : Type 0 where
  pub counted : length s.output.metadata.variable_indices ≡ length s.variables
  pub known : All (λ i. i < s.output.metadata.instructions) s.output.metadata.variable_indices
  pub acted : length s.output.metadata.action_indices ≡ actions_of s
  pub known_actions : All (λ i. i < s.output.metadata.instructions) s.output.metadata.action_indices

abbrev pub instructions_of : Compiler → ℕ
instructions_of s = s.output.metadata.instructions

-- After a failure the variables of the failed instruction may have its index.
pub record IsTraced (s : Compiler) : Type 0 where
  pub counted : length s.output.metadata.variable_indices ≡ length s.variables
  pub known : All (λ i. i ≤ s.output.metadata.instructions) s.output.metadata.variable_indices

length-replicate {ℓ} : {A : Type ℓ} (n : ℕ) (a : A) → length (replicate n a) ≡ n
length-replicate zero a = refl
length-replicate (suc n) a = ap suc (length-replicate n a)

All-replicate {ℓ κ} : {A : Type ℓ} (P : A → Type κ) (n : ℕ) (a : A) → P a → All P (replicate n a)
All-replicate P zero a h = tt
All-replicate P (suc n) a h = (h, All-replicate P n a h)

All-no_replicate {ℓ κ} :
    {A : Type ℓ} (P : A → Type κ) (n : ℕ) (a : A) → n ≡ 0 → All P (replicate n a)
All-no_replicate P n a e = rw e tt

-- The state after the indices of an instruction are recorded, from `s` before it and `t` after it.
abbrev recorded : Operation → Compiler → Compiler → Compiler
recorded op s t = (record_indices op (actions_of s) (actions_of t) t).1

module _ (s t : Compiler) (g : Grows s t) where
  pub counted_after :
      length s.output.metadata.variable_indices ≡ length s.variables
      → length t.output.metadata.variable_indices ≡ length t.variables
  counted_after h = rw g.variable_indices (
      omega (
        arith,
        length-append s.output.metadata.variable_indices (replicate g.made (instructions_of s)),
        length-replicate g.made (instructions_of s),
        g.variables,
      ))

  actions_grow : actions_of s ≤ actions_of t
  actions_grow =
      rw g.actions
        (omega (arith, count_if-append (λ a. not (is_probe_action a)) s.output.actions g.more))

  acted_after :
      length s.output.metadata.action_indices ≡ actions_of s
      → length (
          t.output.metadata.action_indices
          ++ replicate (actions_of t - actions_of s) (instructions_of t))
        ≡ actions_of t
  acted_after h = omega (
    arith,
    length-append t.output.metadata.action_indices
        (replicate (actions_of t - actions_of s) (instructions_of t)),
    length-replicate (actions_of t - actions_of s) (instructions_of t),
    ap length g.action_indices,
    actions_grow,
  )

  -- A bound on what was there, and on the index of the instruction.
  pub known_after :
      (n : ℕ)
      → All (λ i. i < instructions_of s) s.output.metadata.variable_indices
      → instructions_of s < n
      → All (λ i. i < n) t.output.metadata.variable_indices
  known_after n h le = rw g.variable_indices (
      All-append (λ i. i < n) s.output.metadata.variable_indices
        (replicate g.made (instructions_of s))
        (All-mono s.output.metadata.variable_indices (λ i below. omega arith) h)
        (All-replicate (λ i. i < n) g.made (instructions_of s) le))

  known_actions_after :
      (n count : ℕ)
      → All (λ i. i < instructions_of s) s.output.metadata.action_indices
      → instructions_of s ≤ n
      → All (λ i. i < n) (replicate count (instructions_of t))
      → All (λ i. i < n) (t.output.metadata.action_indices ++ replicate count (instructions_of t))
  known_actions_after n count h le new =
      All-append (λ i. i < n) t.output.metadata.action_indices _
        (rw g.action_indices (All-mono s.output.metadata.action_indices (λ i below. omega arith) h))
        new

  pub recorded-IsIndexed :
      (op : Operation)
      → IsIndexed s
      → (is_probe op ≡ true
          → (t.output.metadata ≡ s.output.metadata) × (actions_of t ≡ actions_of s))
      → IsIndexed (recorded op s t)
  unfolding record_indices update_metadata
  recorded-IsIndexed op h probed = elim (Bool-cases (is_probe op)) [
    | inl probes ↦ record {
      counted = counted_after h.counted;
      known = rw (probes, (probed probes).0) h.known;
      acted = acted_after h.acted;
      known_actions = rw probes (
          known_actions_after (instructions_of t) (actions_of t - actions_of s) h.known_actions
            (omega (arith, g.instructions))
            (All-no_replicate _ _ _ (rw (probed probes).1 (omega arith))));
    }
    | inr acts ↦ record {
      counted = counted_after h.counted;
      known =
          rw acts (known_after (suc (instructions_of t)) h.known (omega (arith, g.instructions)));
      acted = acted_after h.acted;
      known_actions = rw acts (
          known_actions_after (suc (instructions_of t)) (actions_of t - actions_of s)
            h.known_actions (omega (arith, g.instructions)) (All-replicate _ _ _ (omega arith)));
    }
  ]
