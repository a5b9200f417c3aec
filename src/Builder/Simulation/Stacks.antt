-- ===== src/Builder/Simulation/Stacks.antt =====
-- The scopes of two builders, one followed by the other.
use bitcoin_antithesis.Prelude.{
  ℕ, ◌≤◌, ◌<◌, ◌≡◌, refl, true, List, [], ◌∷◌, ◌++◌, inl, inr, some, arith, All, All-mono,
  get_elem?, get_elem?-append, Bool-cases, ◌==◌, ==_iff,
}
use bitcoin_antithesis.Variable.{Variable}
use bitcoin_antithesis.Operation.{Operation}
use bitcoin_antithesis.Instruction.{Instruction}
use bitcoin_antithesis.Builder.State.{Scope, ScopedVariable, contains}
use bitcoin_antithesis.Builder.Append.{scoped}
use bitcoin_antithesis.Builder.Invariant.{Opened, ids}
use bitcoin_antithesis.Builder.Invariant.Scopes.{top-positive}
use bitcoin_antithesis.Builder.Advance.{top_id}
use bitcoin_antithesis.Builder.Simulation.{Zip, OpensAt, SameOpener, Visible}

pub Zip-both :
    {R S T : Scope → Scope → Type 0} (ss ts : List Scope)
    → ((s t : Scope) → R s t → S s t → T s t)
    → Zip R ss ts
    → Zip S ss ts
    → Zip T ss ts
Zip-both [] [] f r q = tt
Zip-both (s ∷ ss) (t ∷ ts) f r q = (f s t r.0 q.0, Zip-both ss ts f r.1 q.1)
Zip-both [] (t ∷ ts) f r q = r
Zip-both (s ∷ ss) [] f r q = r

pub Zip-left :
    (R : Scope → Scope → Type 0) (P : Scope → Type 0) (ss ts : List Scope)
    → Zip R ss ts
    → All P ss
    → Zip (λ s t. P s) ss ts
Zip-left R P [] [] r h = tt
Zip-left R P (s ∷ ss) (t ∷ ts) r h = (h.0, Zip-left R P ss ts r.1 h.1)
Zip-left R P [] (t ∷ ts) r h = r
Zip-left R P (s ∷ ss) [] r h = r

pub Opened-below :
    (code : List Instruction) (s : Scope) (rest : List Scope)
    → Opened code (s ∷ rest)
    → All (λ x. x.id < s.id) rest
Opened-below code s [] o = tt
Opened-below code s (t ∷ rest) o =
    (o.1, All-mono rest (λ x (h : x.id < t.id). omega (arith, o.1)) (Opened-below code t rest o.2))

pub Opened-positive :
    (code : List Instruction) (scopes : List Scope)
    → Opened code scopes
    → All (λ x. 1 ≤ x.id) scopes
Opened-positive code [] o = absurd o
Opened-positive code (s ∷ []) o = (omega (arith, top-positive code s [] o), tt)
Opened-positive code (s ∷ t ∷ rest) o =
    (top-positive code s (t ∷ rest) o, Opened-positive code (t ∷ rest) o.2)

-- Only the top has the id of the top.
pub top-Zip :
    (R : Scope → Scope → Type 0) (code : List Instruction) (ss ts : List Scope)
    → Opened code ss
    → Zip R ss ts
    → Zip (λ s t. top_id ss ≡ s.id → top_id ts ≡ t.id) ss ts
top-Zip R code [] ts o r = absurd o
top-Zip R code (s ∷ ss) [] o r = r
top-Zip R code (s ∷ ss) (t ∷ ts) o r = (
  (λ _. refl),
  Zip-both ss ts (λ x y _ (below : x.id < s.id) same. absurd (omega arith)) r.1
      (Zip-left R (λ x. x.id < s.id) ss ts r.1 (Opened-below code s ss o)),
)

pub OpensAt-append :
    (code more : List Instruction) (s : Scope) (op : Operation)
    → OpensAt code s op
    → OpensAt (code ++ more) s op
OpensAt-append code more s op (at, i, begun, found, is) =
    (at, i, begun, get_elem?-append code more at found, is)

pub SameOpener-append :
    (code code' more more' : List Instruction) (s t : Scope)
    → SameOpener code code' s t
    → SameOpener (code ++ more) (code' ++ more') s t
SameOpener-append code code' more more' s t (inl global) = inl global
SameOpener-append code code' more more' s t (inr (op, p, q)) =
    inr (op, OpensAt-append code more s op p, OpensAt-append code' more' t op q)

-- A variable in an open scope is, renamed, in an open scope at the same depth.
pub Zip-active :
    {R : Scope → Scope → Type 0} (f : ℕ → ℕ) (vars vars' : List ScopedVariable)
    → (ss ts : List Scope) (idx id : ℕ) (v : Variable)
    → ((s t : Scope) → R s t → Visible f vars vars' s.id t.id)
    → Zip R ss ts
    → get_elem? vars idx ≡ some (scoped id v)
    → contains (ids ss) id ≡ true
    → (id' : ℕ) × (get_elem? vars' (f idx) ≡ some (scoped id' v)) × (contains (ids ts) id' ≡ true)
Zip-active f vars vars' [] ts idx id v sees r found active = cc
Zip-active f vars vars' (s ∷ ss) [] idx id v sees r found active = absurd r
Zip-active f vars vars' (s ∷ ss) (t ∷ ts) idx id v sees r found active =
    elim (Bool-cases (id == s.id)) [
      | inl top ↦ (t.id, sees s t r.0 idx v (rw (← (==_iff id s.id).0 top) found), ground arith)
      | inr other ↦
          let (id', found', active') =
            Zip-active f vars vars' ss ts idx id v sees r.1 found (rw other at active) in
          (id', found', ground (arith, active'))
    ]
