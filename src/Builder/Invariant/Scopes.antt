-- ===== src/Builder/Invariant/Scopes.antt =====
-- Lemmas on the stack of scopes and the set of their ids.
use bitcoin_antithesis.Prelude.{
  ℕ, suc, ◌≤◌, ◌≡◌, ◌≢◌, refl, true, false, List, [], ◌∷◌, ◌++◌, arith, All, All-mono,
  get_elem?-append,
}
use bitcoin_antithesis.Instruction.{Instruction}
use bitcoin_antithesis.Builder.State.{Scope, contains, remove}
use bitcoin_antithesis.Builder.Invariant.{Opened, ids}

-- More instructions leave the scopes as they are.
pub Opened-append :
    (program more : List Instruction) (scopes : List Scope)
    → Opened program scopes
    → Opened (program ++ more) scopes
Opened-append program more [] o = o
Opened-append program more (s ∷ []) o = o
Opened-append program more (s ∷ t ∷ rest) ((at, i, b, g, k, c), lt, o) = (
  (at, i, b, get_elem?-append program more at g, k, c),
  lt,
  Opened-append program more (t ∷ rest) o,
)

-- A scope that is open and not the global one has another below the top.
pub two_open :
    (program : List Instruction) (scopes : List Scope) (id : ℕ)
    → Opened program scopes
    → contains (ids scopes) id ≡ true
    → id ≢ 1
    → (s : Scope) × (t : Scope) × (rest : List Scope) × (scopes ≡ s ∷ t ∷ rest)
two_open program [] id o c h = absurd o
two_open program (s ∷ []) id o c h = absurd (h (ground arith))
two_open program (s ∷ t ∷ rest) id o c h = (s, t, rest, refl)

pub contains-fresh :
    (n : ℕ) (scopes : List Scope)
    → All (λ s. s.id ≤ n) scopes
    → contains (ids scopes) (suc n) ≡ false
contains-fresh n [] h = refl
contains-fresh n (s ∷ scopes) h = ground (arith, contains-fresh n scopes h.1)

pub bounded_suc :
    (n : ℕ) (scopes : List Scope) → All (λ s. s.id ≤ n) scopes → All (λ s. s.id ≤ suc n) scopes
bounded_suc n scopes = All-mono scopes (λ s (h : s.id ≤ n). omega arith)

pub remove_top : (id : ℕ) (set : List ℕ) → remove id (id ∷ set) ≡ set
remove_top id set = ground arith

pub contains_top : (id : ℕ) (set : List ℕ) → contains (id ∷ set) id ≡ true
contains_top id set = ground arith

-- No scope has the id 0, which is that of the variables of nops.
pub top-positive :
    (program : List Instruction) (s : Scope) (rest : List Scope)
    → Opened program (s ∷ rest)
    → 1 ≤ s.id
top-positive program s [] o = omega arith
top-positive program s (t ∷ rest) o = omega (arith, top-positive program t rest o.2)
