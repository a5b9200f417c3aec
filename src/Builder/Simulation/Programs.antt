-- ===== src/Builder/Simulation/Programs.antt =====
-- Runs of whole programs: in two parts, and followed with the variables shifted.
use mathlib.Core.List.{append_assoc, append-nil}
use bitcoin_antithesis.Prelude.{
  ℕ, suc, ◌+◌, ◌≤◌, ◌<◌, ◌≡◌, refl, ap, sym, ◌∙◌, subst, List, [], ◌∷◌, ◌++◌, map, inl, none, arith,
  length, length-append,
}
use bitcoin_antithesis.Instruction.{Instruction, entered_context_after_execution}
use bitcoin_antithesis.Builder.State.{ProgramContext, Scope, Builder, new_builder, enter_scope}
use bitcoin_antithesis.Builder.Invariant.{Opened, IsWellFormed}
use bitcoin_antithesis.Builder.Advance.{made, advance, top_id, popped, counted}
use bitcoin_antithesis.Builder.Advance.Cases.{Accepts}
use bitcoin_antithesis.Builder.Programs.{remap, rename}
use bitcoin_antithesis.Builder.Runs.{Runs, run, advance-IsWellFormed}
use bitcoin_antithesis.Builder.Runs.Valid.{IsValid, new_builder-context}
use bitcoin_antithesis.Builder.Simulation.{Zip, Visible, Sim}
use bitcoin_antithesis.Builder.Simulation.Accepted.{Accepts-rename}
use bitcoin_antithesis.Builder.Simulation.Made.{length-made_at}
use bitcoin_antithesis.Builder.Simulation.Step.{advance-Sim}

pub Runs-append :
    (b : Builder) (is js : List Instruction) → Runs b is → Runs (run is b) js → Runs b (is ++ js)
Runs-append b [] js p q = q
Runs-append b (i ∷ is) js p q = (p.0, Runs-append (advance i b) is js p.1 q)

pub Runs-split :
    (b : Builder) (is js : List Instruction) → Runs b (is ++ js) → Runs b is × Runs (run is b) js
Runs-split b [] js p = (tt, p)
Runs-split b (i ∷ is) js p = let (q, r) = Runs-split (advance i b) is js p.1 in ((p.0, q), r)

pub run-append : (b : Builder) (is js : List Instruction) → run (is ++ js) b ≡ run js (run is b)
run-append b [] js = refl
run-append b (i ∷ is) js = run-append (advance i b) is js

pub run-context : (b : Builder) (is : List Instruction) → (run is b).context ≡ b.context
run-context b [] = refl
run-context b (i ∷ is) = run-context (advance i b) is

pub run-instructions :
    (b : Builder) (is : List Instruction) → (run is b).instructions ≡ b.instructions ++ is
run-instructions b [] = sym (append-nil b.instructions)
run-instructions b (i ∷ is) =
    run-instructions (advance i b) is ∙ append_assoc b.instructions (i ∷ []) is

pub length-Zip :
    (R : Scope → Scope → Type 0) (ss ts : List Scope) → Zip R ss ts → length ss ≡ length ts
length-Zip R [] [] z = refl
length-Zip R (s ∷ ss) (t ∷ ts) z = ap suc (length-Zip R ss ts z.1)
length-Zip R [] (t ∷ ts) z = absurd z
length-Zip R (s ∷ ss) [] z = absurd z

-- The second builder has `offset` more variables, and the first all those below the threshold.
pub record Shifted (threshold offset : ℕ) (b c : Builder) : Type 0 where
  pub sim : Sim (remap threshold offset) b c
  pub past : threshold ≤ length b.variables
  pub ahead : length c.variables ≡ length b.variables + offset

length-made :
    (f : ℕ → ℕ) (i : Instruction) (b c : Builder) → length (made i b) ≡ length (made (rename f i) c)
length-made f i b c =
    length-made_at i.operation (top_id (popped i.operation b.active_scopes))
      (counted (entered_context_after_execution i.operation) b.scope_counter)
      (top_id (popped i.operation c.active_scopes))
      (counted (entered_context_after_execution i.operation) c.scope_counter)

module _ (threshold offset : ℕ) where
  advance-Shifted :
      (b c : Builder) (i : Instruction)
      → IsWellFormed b
      → Accepts b i
      → Shifted threshold offset b c
      → Shifted threshold offset (advance i b) (advance (rename (remap threshold offset) i) c)
  advance-Shifted b c i v accepts s = record {
    sim =
        advance-Sim (remap threshold offset) b c i (map (remap threshold offset) i.inputs) v accepts
          s.sim (λ k (lt : k < length (made i b)). ground (arith, s.past, s.ahead));
    past = omega (arith, s.past, length-append b.variables (made i b));
    ahead = omega (
      arith,
      s.ahead,
      length-append b.variables (made i b),
      length-append c.variables (made (rename (remap threshold offset) i) c),
      length-made (remap threshold offset) i b c,
    );
  }

  -- Instructions that the first builder accepts in turn, the second accepts shifted.
  pub run-Shifted :
      (b c : Builder) (is : List Instruction)
      → IsWellFormed b
      → IsWellFormed c
      → Shifted threshold offset b c
      → Runs b is
      → Runs c (map (rename (remap threshold offset)) is)
        × Shifted threshold offset (run is b) (run (map (rename (remap threshold offset)) is) c)
  run-Shifted b c [] v w s runs = (tt, s)
  run-Shifted b c (i ∷ is) v w s (accepts, runs) =
      let accepts' = Accepts-rename (remap threshold offset) b c v w s.sim i accepts in
      let (runs', s') =
        run-Shifted (advance i b) (advance (rename (remap threshold offset) i) c) is
          (advance-IsWellFormed b i v accepts)
          (advance-IsWellFormed c (rename (remap threshold offset) i) w accepts')
          (advance-Shifted b c i v accepts s) runs in
      ((accepts', runs'), s')

-- Where only one scope is open it is the global one.
pub one_open :
    (code : List Instruction) (scopes : List Scope)
    → Opened code scopes
    → length scopes ≡ 1
    → (s : Scope) × (scopes ≡ s ∷ []) × (s.begin ≡ none) × (s.id ≡ 1)
one_open code [] o e = absurd o
one_open code (s ∷ []) o e = (s, refl, o.0, o.1)
one_open code (s ∷ t ∷ rest) o e = absurd (omega arith)

-- A builder follows another one where both stand in the global scope, and the variables of the
-- first are, shifted, variables of the second.
pub global-Sim :
    (f : ℕ → ℕ) (b c : Builder)
    → IsWellFormed b
    → IsWellFormed c
    → b.context ≡ c.context
    → length b.active_scopes ≡ 1
    → length c.active_scopes ≡ 1
    → Visible f b.variables c.variables 1 1
    → Sim f b c
global-Sim f b c v w same one one' sees =
    let (s, stack, begun, at) = one_open b.instructions b.active_scopes v.opened one in
    let (t, stack', begun', at') = one_open c.instructions c.active_scopes w.opened one' in
    record {
      context = same;
      scopes = rw (stack, stack') ((inl (begun, begun'), rw (at, at') sees), tt);
    }

start-instructions : (context : ProgramContext) → (new_builder context).instructions ≡ []
unfolding new_builder enter_scope
start-instructions context = refl

-- The program that a run builds is the one that ran, and it is valid where the run closes it.
pub run-IsValid :
    (context : ProgramContext) (is : List Instruction)
    → (let b = run is (new_builder context) in
        Runs (new_builder context) is
        → length b.active_scopes ≡ 1
        → IsValid (record { context = b.context; instructions = b.instructions })
          × (b.context ≡ context)
          × (b.instructions ≡ is))
run-IsValid context is runs one =
    let same = run-context (new_builder context) is ∙ sym (new_builder-context context) in
    let built =
      run-instructions (new_builder context) is ∙ ap (λ x. x ++ is) (start-instructions context) in
    (
      subst IsValid (λ k. record { context = sym same k; instructions = sym built k }) (runs, one),
      same,
      built,
    )
