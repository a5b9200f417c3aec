-- ===== src/Builder/Simulation/Step.antt =====
-- The second builder follows the first by one instruction, whatever inputs it takes.
use bitcoin_antithesis.Prelude.{
  ℕ, suc, ◌+◌, ◌≤◌, ◌<◌, ◌≡◌, refl, subst, true, List, [], ◌∷◌, inl, inr, Option, none, some, arith,
  All, All-get, Bool-cases, get_elem?-end, length,
}
use bitcoin_antithesis.Partial.{Partial, done, panics}
use bitcoin_antithesis.Operation.{Operation}
use bitcoin_antithesis.Operation.Blocks.{is_block_begin, is_block_end}
use bitcoin_antithesis.Instruction.{
  Instruction, InstructionContext, entered_context_after_execution,
}
use bitcoin_antithesis.Instruction.Nop.{entered_context-EntersContext}
use bitcoin_antithesis.Builder.State.{Scope, Builder}
use bitcoin_antithesis.Builder.Invariant.{Opened, IsWellFormed}
use bitcoin_antithesis.Builder.Invariant.Preserved.{block_end-open}
use bitcoin_antithesis.Builder.Advance.{popped, top_id, tail_scopes, counted, pushed, made, advance}
use bitcoin_antithesis.Builder.Advance.Cases.{Accepts}
use bitcoin_antithesis.Builder.Simulation.{Zip, Follows, Sim}
use bitcoin_antithesis.Builder.Simulation.Vars.{Visible-append}
use bitcoin_antithesis.Builder.Simulation.Stacks.{
  Zip-both, Zip-left, top-Zip, Opened-positive, SameOpener-append,
}
use bitcoin_antithesis.Builder.Simulation.Made.{old-Parallel, new-Parallel}

Zip-tail :
    (R : Scope → Scope → Type 0) (ss ts : List Scope)
    → Zip R ss ts
    → Zip R (tail_scopes ss) (tail_scopes ts)
Zip-tail R [] [] z = tt
Zip-tail R (s ∷ ss) (t ∷ ts) z = z.1
Zip-tail R [] (t ∷ ts) z = absurd z
Zip-tail R (s ∷ ss) [] z = absurd z

pub Zip-popped :
    (R : Scope → Scope → Type 0) (op : Operation) (ss ts : List Scope)
    → Zip R ss ts
    → Zip R (popped op ss) (popped op ts)
Zip-popped R op ss ts z = elim (Bool-cases (is_block_end op)) [
  | inl ends ↦ rw ends (Zip-tail R ss ts z)
  | inr other ↦ rw other z
]

-- The stack that an accepted instruction leaves when its block is closed.
pub popped-Opened :
    (b : Builder) (i : Instruction)
    → IsWellFormed b
    → Accepts b i
    → Opened b.instructions (popped i.operation b.active_scopes)
popped-Opened b i v accepts = elim (Bool-cases (is_block_end i.operation)) [
  | inr other ↦ rw other v.opened
  | inl ends ↦
      let (s, t, rest, stack) = block_end-open b i v accepts.0.0 ends in
      rw (ends, stack) (subst (Opened b.instructions) stack v.opened).2
]

All-tail : (P : Scope → Type 0) (scopes : List Scope) → All P scopes → All P (tail_scopes scopes)
All-tail P [] h = tt
All-tail P (s ∷ rest) h = h.1

pub popped-All :
    (P : Scope → Type 0) (op : Operation) (scopes : List Scope)
    → All P scopes
    → All P (popped op scopes)
popped-All P op scopes h = elim (Bool-cases (is_block_end op)) [
  | inl ends ↦ rw ends (All-tail P scopes h)
  | inr other ↦ rw other h
]

counted-begin :
    (op : Operation) (n : ℕ)
    → is_block_begin op ≡ true
    → counted (entered_context_after_execution op) n ≡ suc n
counted-begin op n begins =
    let (c, enters, _) = (entered_context-EntersContext op).0 begins in rw enters

entered-begin :
    (op : Operation) (x : InstructionContext)
    → entered_context_after_execution op ≡ done (some x)
    → is_block_begin op ≡ true
entered-begin op x enters = elim (Bool-cases (is_block_begin op)) [
  | inl begins ↦ begins
  | inr other ↦ cc ((entered_context-EntersContext op).1 other)
]

top-le : (n : ℕ) (scopes : List Scope) → All (λ s. s.id ≤ n) scopes → top_id scopes ≤ n
top-le n [] h = omega arith
top-le n (s ∷ rest) h = h.0

abbrev opened_at : ℕ → ℕ → InstructionContext → Scope
opened_at at id x = record { begin = some at; id = id; context = x }

Zip-pushed :
    (R : Scope → Scope → Type 0) (enters : Partial (Option InstructionContext))
    → (at id at' id' : ℕ) (ss ts : List Scope) → Zip R ss ts
    → ((x : InstructionContext)
        → enters ≡ done (some x)
        → R (opened_at at id x) (opened_at at' id' x))
    → Zip R (pushed enters at id ss) (pushed enters at' id' ts)
Zip-pushed R (done (some x)) at id at' id' ss ts z new = (new x refl, z)
Zip-pushed R (done none) at id at' id' ss ts z new = z
Zip-pushed R panics at id at' id' ss ts z new = z

abbrev pub with_inputs : List ℕ → Instruction → Instruction
with_inputs inputs i = record i { inputs = inputs }

module _ (f : ℕ → ℕ) (b c : Builder) (i : Instruction) (inputs : List ℕ) (v : IsWellFormed b)
    (accepts : Accepts b i) (sim : Sim f b c)
    (aligned : (k : ℕ)
      → k < length (made i b)
      → f (length b.variables + k) ≡ length c.variables + k) where
  abbrev FollowsAfter : Scope → Scope → Type 0
  FollowsAfter = Follows f (advance i b) (advance (with_inputs inputs i) c)

  abbrev outer : ℕ
  outer = top_id (popped i.operation b.active_scopes)

  abbrev outer' : ℕ
  outer' = top_id (popped i.operation c.active_scopes)

  abbrev inner : ℕ
  inner = counted (entered_context_after_execution i.operation) b.scope_counter

  abbrev inner' : ℕ
  inner' = counted (entered_context_after_execution i.operation) c.scope_counter

  old-Follows :
      (s t : Scope)
      → Follows f b c s t
      → (outer ≡ s.id → outer' ≡ t.id)
      → 1 ≤ s.id
      → s.id ≤ b.scope_counter
      → FollowsAfter s t
  old-Follows s t (opener, sees) same positive below = (
    SameOpener-append b.instructions c.instructions (i ∷ []) (with_inputs inputs i ∷ []) s t opener,
    Visible-append s.id t.id f b.variables c.variables (made i b) (made (with_inputs inputs i) c)
        aligned sees
        (old-Parallel i.operation outer outer' inner inner' s.id t.id positive same
          (λ begins. omega (arith, counted-begin i.operation b.scope_counter begins))),
  )

  bounds : All (λ s. s.id ≤ b.scope_counter) (popped i.operation b.active_scopes)
  bounds = popped-All (λ s. s.id ≤ b.scope_counter) i.operation b.active_scopes v.bounded

  kept : Zip FollowsAfter (popped i.operation b.active_scopes) (popped i.operation c.active_scopes)
  kept =
      let ss = popped i.operation b.active_scopes in
      let ts = popped i.operation c.active_scopes in
      let opened = popped-Opened b i v accepts in
      let z = Zip-popped (Follows f b c) i.operation b.active_scopes c.active_scopes sim.scopes in
      Zip-both {T = FollowsAfter} ss ts
        (λ s t (p : Follows f b c s t × (outer ≡ s.id → outer' ≡ t.id))
            (q : (1 ≤ s.id) × (s.id ≤ b.scope_counter)).
          old-Follows s t p.0 p.1 q.0 q.1)
        (Zip-both {T = λ s t. Follows f b c s t × (outer ≡ s.id → outer' ≡ t.id)} ss ts
          (λ s t p q. (p, q)) z (top-Zip (Follows f b c) b.instructions ss ts opened z))
        (Zip-both {T = λ s t. (1 ≤ s.id) × (s.id ≤ b.scope_counter)} ss ts (λ s t p q. (p, q))
          (Zip-left (Follows f b c) (λ s. 1 ≤ s.id) ss ts z
            (Opened-positive b.instructions ss opened))
          (Zip-left (Follows f b c) (λ s. s.id ≤ b.scope_counter) ss ts z bounds))

  new-Follows :
      (x : InstructionContext)
      → is_block_begin i.operation ≡ true
      → FollowsAfter
          (opened_at (length b.instructions) inner x)
          (opened_at (length c.instructions) inner' x)
  new-Follows x begins = (
    inr (
      i.operation,
      (length b.instructions, i, refl, get_elem?-end b.instructions [] i, refl),
      (
        length c.instructions,
        with_inputs inputs i,
        refl,
        get_elem?-end c.instructions [] (with_inputs inputs i),
        refl,
      ),
    ),
    Visible-append inner inner' f b.variables c.variables (made i b) (made (with_inputs inputs i) c)
        aligned
        (λ idx t found. absurd (
          omega (
            arith,
            All-get (λ y. y.scope_id ≤ b.scope_counter) b.variables idx v.known found,
            counted-begin i.operation b.scope_counter begins,
          )))
        (new-Parallel i.operation outer outer' inner inner' begins (
          omega (
            arith,
            top-le b.scope_counter (popped i.operation b.active_scopes) bounds,
            counted-begin i.operation b.scope_counter begins,
          ))),
  )

  pub advance-Sim : Sim f (advance i b) (advance (with_inputs inputs i) c)
  advance-Sim = record {
    context = sim.context;
    scopes =
        Zip-pushed FollowsAfter (entered_context_after_execution i.operation)
          (length b.instructions) inner (length c.instructions) inner'
          (popped i.operation b.active_scopes) (popped i.operation c.active_scopes) kept
          (λ x enters. new-Follows x (entered-begin i.operation x enters));
  }
