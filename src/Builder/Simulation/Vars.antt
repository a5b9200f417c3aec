-- ===== src/Builder/Simulation/Vars.antt =====
-- The variables of two builders, one followed by the other.
use bitcoin_antithesis.Prelude.{
  ℕ, zero, suc, ◌+◌, ◌<◌, ◌≡◌, List, [], ◌∷◌, ◌++◌, map, inl, inr, some, get_elem?,
  get_elem?-append, get_elem?-append_cases, get_elem?-append_right, lt-get_elem?, length,
}
use bitcoin_antithesis.Variable.{Variable}
use bitcoin_antithesis.Builder.State.{ScopedVariable}
use bitcoin_antithesis.Builder.Append.{scoped}
use bitcoin_antithesis.Builder.Simulation.{Visible}

-- The new variables of the two builders agree, place by place, on two scopes.
abbrev pub Parallel : ℕ → ℕ → List ScopedVariable → List ScopedVariable → Type 0
Parallel id id' xs ys =
    (k : ℕ) (v : Variable)
    → get_elem? xs k ≡ some (scoped id v)
    → get_elem? ys k ≡ some (scoped id' v)

module _ (id id' : ℕ) where
  pub Parallel-scoped :
      (o o' : ℕ) (vs : List Variable)
      → (o ≡ id → o' ≡ id')
      → Parallel id id' (map (scoped o) vs) (map (scoped o') vs)
  Parallel-scoped o o' [] h k v e = cc
  Parallel-scoped o o' (w ∷ vs) h zero v e = let same : o ≡ id = cc in cc (h same)
  Parallel-scoped o o' (w ∷ vs) h (suc k) v e = Parallel-scoped o o' vs h k v e

  pub Parallel-append :
      (xs xs' ys ys' : List ScopedVariable)
      → length xs ≡ length xs'
      → Parallel id id' xs xs'
      → Parallel id id' ys ys'
      → Parallel id id' (xs ++ ys) (xs' ++ ys')
  Parallel-append xs xs' ys ys' same p q k v e = elim (get_elem?-append_cases xs ys k e) [
    | inl here ↦ get_elem?-append xs' ys' k (p k v here)
    | inr (j, at, there) ↦ rw (at, same, get_elem?-append_right xs' ys' j) (q j v there)
  ]

  -- New variables, made at the places to which the renaming sends theirs, stay visible.
  pub Visible-append :
      (f : ℕ → ℕ) (vars vars' xs xs' : List ScopedVariable)
      → ((k : ℕ) → k < length xs → f (length vars + k) ≡ length vars' + k)
      → Visible f vars vars' id id'
      → Parallel id id' xs xs'
      → Visible f (vars ++ xs) (vars' ++ xs') id id'
  Visible-append f vars vars' xs xs' aligned sees p idx v e =
      elim (get_elem?-append_cases vars xs idx e) [
        | inl old ↦ get_elem?-append vars' xs' (f idx) (sees idx v old)
        | inr (k, at, new) ↦
            rw (at, aligned k (lt-get_elem? xs k new), get_elem?-append_right vars' xs' k)
              (p k v new)
      ]
