-- ===== src/Builder/Headers/Pairs.antt =====
-- A block variable directly follows the variable of its header: builder.rs and operation.rs of
-- workloads/ir-workload/fuzzamoto-ir/src.
use mathlib.Core.Option.{some-injective}
use bitcoin_antithesis.Prelude.{
  ℕ, zero, suc, ◌≡◌, refl, ap, subst, ◌⊎◌, ◌∙◌, true, false, Bool, List, [], ◌∷◌, ◌++◌, map,
  replicate, some, ◌&&◌, ◌||◌, not, inl, inr, get_elem?,
}
use bitcoin_antithesis.Variable.{Variable}
use bitcoin_antithesis.Operation.{Operation, nop}
use bitcoin_antithesis.Operation.Signature.{get_output_variables, get_inner_output_variables}
use bitcoin_antithesis.Instruction.{Instruction, entered_context_after_execution}
use bitcoin_antithesis.Builder.State.{ScopedVariable, Builder}
use bitcoin_antithesis.Builder.Append.{scoped, scope_for}
use bitcoin_antithesis.Builder.Advance.{made, advance, top_id, popped, counted}
use bitcoin_antithesis.Builder.Runs.{run}

abbrev is_header : Variable → Bool
is_header Variable.header = true
is_header _ = false

abbrev is_block : Variable → Bool
is_block Variable.block = true
is_block _ = false

-- Each block follows a header; the flag says whether a header stands before the list.
unfoldable pub headed : Bool → List Variable → Bool
headed after_header [] = true
headed after_header (v ∷ vs) = (not (is_block v) || after_header) && headed (is_header v) vs

and_parts : (x y : Bool) → (x && y) ≡ true → (x ≡ true) × (y ≡ true)
and_parts true y h = (refl, h)
and_parts false y h = cc

and_both : {x y : Bool} → x ≡ true → y ≡ true → (x && y) ≡ true
and_both p q = rw (p, q) refl

or_more : (x y : Bool) → (x || false) ≡ true → (x || y) ≡ true
or_more true y h = refl
or_more false y h = cc

headed-true : (after : Bool) (vs : List Variable) → headed false vs ≡ true → headed after vs ≡ true
unfolding headed
headed-true after [] h = refl
headed-true after (v ∷ vs) h =
    let (fits, rest) = and_parts (not (is_block v) || false) (headed (is_header v) vs) h in
    and_both (or_more (not (is_block v)) after fits) rest

headed-append :
    (after : Bool) (xs ys : List Variable)
    → headed after xs ≡ true
    → headed false ys ≡ true
    → headed after (xs ++ ys) ≡ true
unfolding headed
headed-append after [] ys h k = headed-true after ys k
headed-append after (x ∷ xs) ys h k =
    let (fits, rest) = and_parts (not (is_block x) || after) (headed (is_header x) xs) h in
    and_both fits (headed-append (is_header x) xs ys rest k)

headed-replicate : (n : ℕ) → headed false (replicate n Variable.nop) ≡ true
unfolding headed
headed-replicate zero = refl
headed-replicate (suc n) = headed-replicate n

headed-outputs : (op : Operation) → headed false (get_output_variables op) ≡ true
unfolding headed get_output_variables
headed-outputs (nop outputs _) = headed-replicate outputs
headed-outputs _ = refl

headed-inner : (op : Operation) → headed false (get_inner_output_variables op) ≡ true
unfolding headed get_inner_output_variables
headed-inner (nop _ inner) = headed-replicate inner
headed-inner _ = refl

is_header_sound : (v : Variable) → is_header v ≡ true → v ≡ Variable.header
is_header_sound Variable.header h = refl
is_header_sound _ h = cc

headed-get :
    (after : Bool) (vs : List Variable) (k : ℕ)
    → headed after vs ≡ true
    → get_elem? vs k ≡ some Variable.block
    → ((k ≡ 0) × (after ≡ true)) ⊎ ((j : ℕ) × (k ≡ suc j) × (get_elem? vs j ≡ some Variable.header))
unfolding headed
headed-get after [] k h found = cc
headed-get after (v ∷ vs) zero h found =
    let same : v ≡ Variable.block = cc in
    let (fits, _) = and_parts (not (is_block v) || after) (headed (is_header v) vs) h in
    inl (refl, subst (λ w. (not (is_block w) || after) ≡ true) same fits)
headed-get after (v ∷ vs) (suc k) h found =
    let (_, rest) = and_parts (not (is_block v) || after) (headed (is_header v) vs) h in
    elim (headed-get (is_header v) vs k rest found) [
      | inl (first, header) ↦ inr (k, refl, rw first (ap some (is_header_sound v header)))
      | inr (j, at, found') ↦ inr (suc j, ap suc at, found')
    ]

abbrev vars_of : List ScopedVariable → List Variable
vars_of [] = []
vars_of (v ∷ vs) = v.var ∷ vars_of vs

vars_of-append : (xs ys : List ScopedVariable) → vars_of (xs ++ ys) ≡ vars_of xs ++ vars_of ys
vars_of-append [] ys = refl
vars_of-append (x ∷ xs) ys = ap (λ vs. x.var ∷ vs) (vars_of-append xs ys)

vars_of-scoped : (o : ℕ) (vs : List Variable) → vars_of (map (scoped o) vs) ≡ vs
vars_of-scoped o [] = refl
vars_of-scoped o (v ∷ vs) = ap (λ ws. v ∷ ws) (vars_of-scoped o vs)

abbrev pub IsHeaded : List ScopedVariable → Type 0
IsHeaded vars = headed false (vars_of vars) ≡ true

IsHeaded-scoped :
    (o : ℕ) (vs : List Variable) → headed false vs ≡ true → IsHeaded (map (scoped o) vs)
IsHeaded-scoped o vs h = rw (vars_of-scoped o vs) h

IsHeaded-append : (xs ys : List ScopedVariable) → IsHeaded xs → IsHeaded ys → IsHeaded (xs ++ ys)
IsHeaded-append xs ys h k =
    rw (vars_of-append xs ys) (headed-append false (vars_of xs) (vars_of ys) h k)

-- Instructions keep it.
pub run-IsHeaded :
    (b : Builder) (is : List Instruction) → IsHeaded b.variables → IsHeaded (run is b).variables
run-IsHeaded b [] h = h
run-IsHeaded b (i ∷ is) h =
    let op = i.operation in
    let o = scope_for op (top_id (popped op b.active_scopes)) in
    let n = scope_for op (counted (entered_context_after_execution op) b.scope_counter) in
    run-IsHeaded (advance i b) is (
      IsHeaded-append b.variables (made i b) h (
        IsHeaded-append (map (scoped o) (get_output_variables op))
          (map (scoped n) (get_inner_output_variables op))
          (IsHeaded-scoped o (get_output_variables op) (headed-outputs op))
          (IsHeaded-scoped n (get_inner_output_variables op) (headed-inner op))))

get_elem?-vars_of :
    (vars : List ScopedVariable) (k : ℕ) {v : ScopedVariable}
    → get_elem? vars k ≡ some v
    → get_elem? (vars_of vars) k ≡ some v.var
get_elem?-vars_of [] k found = cc
get_elem?-vars_of (x ∷ vars) zero found = ap (λ y. some y.var) (some-injective x _ found)
get_elem?-vars_of (x ∷ vars) (suc k) found = get_elem?-vars_of vars k found

vars_of-get :
    (vars : List ScopedVariable) (k : ℕ) (v : Variable)
    → get_elem? (vars_of vars) k ≡ some v
    → (x : ScopedVariable) × (get_elem? vars k ≡ some x) × (x.var ≡ v)
vars_of-get [] k v found = cc
vars_of-get (x ∷ vars) zero v found = (x, refl, some-injective x.var v found)
vars_of-get (x ∷ vars) (suc k) v found = vars_of-get vars k v found

-- Directly before a block variable stands a header variable.
pub before_block :
    (vars : List ScopedVariable) (k : ℕ) (x : ScopedVariable)
    → IsHeaded vars
    → get_elem? vars k ≡ some x
    → x.var ≡ Variable.block
    → (j : ℕ) × (y : ScopedVariable) × (k ≡ suc j)
      × (get_elem? vars j ≡ some y)
      × (y.var ≡ Variable.header)
before_block vars k x h found same =
    elim (headed-get false (vars_of vars) k h (get_elem?-vars_of vars k found ∙ ap some same)) [
      | inl (_, no_header) ↦ cc
      | inr (j, at, found') ↦
          let (y, there, header) = vars_of-get vars j Variable.header found' in
          (j, y, at, there, header)
    ]
