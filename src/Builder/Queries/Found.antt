-- ===== src/Builder/Queries/Found.antt =====
-- What the queries of the builder find: builder.rs of workloads/ir-workload/fuzzamoto-ir/src.
use bitcoin_antithesis.Prelude.{
  ℕ, zero, suc, ◌+◌, ◌≤◌, ◌≡◌, ◌≢◌, refl, ap, sym, ◌∙◌, ◌⊎◌, inl, inr, Bool, true, false, List, [],
  ◌∷◌, none, some, arith, All, All-mono, get_elem?, Bool-cases, Option-cases,
}
use bitcoin_antithesis.Variable.{Variable, var_eq_sound, var_eq_refl}
use bitcoin_antithesis.Builder.State.{ScopedVariable, IndexedVariable, Builder, is_scope_active}
use bitcoin_antithesis.Builder.Append.{scoped}
use bitcoin_antithesis.Builder.Checks.{InScope}
use bitcoin_antithesis.Builder.Queries.{
  select, last, is_available, available, get_variable, get_nearest_variable,
}

-- `w` is the variable at place `k` of the list, whose numbers start at `n`, and is kept.
abbrev pub IsSelected :
    (ℕ → ScopedVariable → Bool) → ℕ → List ScopedVariable → IndexedVariable → Type 0
IsSelected keep n vars w =
    (k : ℕ) × (x : ScopedVariable) × (w.index ≡ n + k)
    × (get_elem? vars k ≡ some x)
    × (w.var ≡ x.var)
    × (keep (n + k) x ≡ true)

IsSelected-later :
    (keep : ℕ → ScopedVariable → Bool) (n : ℕ) (v : ScopedVariable) (vs : List ScopedVariable)
    → (w : IndexedVariable) → IsSelected keep (suc n) vs w
    → IsSelected keep n (v ∷ vs) w
IsSelected-later keep n v vs w (k, x, at, found, same, kept) =
    let shift : suc n + k ≡ n + suc k = omega arith in
    (suc k, x, omega arith, found, same, cc (ap (λ m. keep m x) shift))

pub select-IsSelected :
    (keep : ℕ → ScopedVariable → Bool) (n : ℕ) (vars : List ScopedVariable)
    → All (IsSelected keep n vars) (select keep n vars)
unfolding select
select-IsSelected keep n [] = tt
select-IsSelected keep n (v ∷ vs) =
    let rest =
      All-mono (select keep (suc n) vs) (IsSelected-later keep n v vs)
        (select-IsSelected keep (suc n) vs) in
    elim (Bool-cases (keep n v)) [
      | inr dropped ↦ rw dropped rest
      | inl kept ↦
          let here : n + 0 ≡ n = omega arith in
          rw kept ((0, v, omega arith, refl, refl, rw here kept), rest)
    ]

-- The last kept variable.
abbrev pub IsNearest :
    (ℕ → ScopedVariable → Bool) → ℕ → List ScopedVariable → IndexedVariable → Type 0
IsNearest keep n vars w =
    (k : ℕ) × (x : ScopedVariable) × (w ≡ record { var = x.var; index = n + k })
    × (get_elem? vars k ≡ some x)
    × (keep (n + k) x ≡ true)
    × ((j : ℕ) (y : ScopedVariable) → get_elem? vars j ≡ some y → keep (n + j) y ≡ true → j ≤ k)

abbrev pub NoneKept : (ℕ → ScopedVariable → Bool) → ℕ → List ScopedVariable → Type 0
NoneKept keep n vars =
    (j : ℕ) (y : ScopedVariable) → get_elem? vars j ≡ some y → keep (n + j) y ≡ false

module _ (keep : ℕ → ScopedVariable → Bool) (n : ℕ) (v : ScopedVariable)
    (vs : List ScopedVariable) where
  later-cons :
      (k : ℕ)
      → ((j : ℕ) (y : ScopedVariable) → get_elem? vs j ≡ some y → keep (suc n + j) y ≡ true → j ≤ k)
      → (j : ℕ) (y : ScopedVariable) → get_elem? (v ∷ vs) j ≡ some y
      → keep (n + j) y ≡ true
      → j ≤ suc k
  later-cons k later zero y found kept = omega arith
  later-cons k later (suc j) y found kept =
      let shift : suc n + j ≡ n + suc j = omega arith in
      let below = later j y found (rw shift kept) in omega arith

  none_later :
      NoneKept keep (suc n) vs
      → (j : ℕ) (y : ScopedVariable) → get_elem? (v ∷ vs) j ≡ some y
      → keep (n + j) y ≡ true
      → j ≤ 0
  none_later others zero y found kept = omega arith
  none_later others (suc j) y found kept =
      let shift : suc n + j ≡ n + suc j = omega arith in
      let other : keep (n + suc j) y ≡ false = rw (← shift) (others j y found) in cc

  IsNearest-later :
      (w : IndexedVariable) → IsNearest keep (suc n) vs w → IsNearest keep n (v ∷ vs) w
  IsNearest-later w (k, x, is, found, kept, later) =
      let shift : (j : ℕ) → suc n + j ≡ n + suc j = λ j. omega arith in
      (
        suc k,
        x,
        is ∙ ap (λ m. record { var = x.var; index = m }) (shift k),
        found,
        rw (← shift k) kept,
        later-cons k later,
      )

  IsNearest-here :
      keep n v ≡ true
      → NoneKept keep (suc n) vs
      → IsNearest keep n (v ∷ vs) (record { var = v.var; index = n })
  IsNearest-here kept others =
      let here : n + 0 ≡ n = omega arith in
      (
        0,
        v,
        ap (λ m. record { var = v.var; index = m }) (sym here),
        refl,
        rw here kept,
        none_later others,
      )

  NoneKept-cons : keep n v ≡ false → NoneKept keep (suc n) vs → NoneKept keep n (v ∷ vs)
  NoneKept-cons dropped others zero y found =
      let here : n + 0 ≡ n = omega arith in rw here (let same : v ≡ y = cc in rw (← same) dropped)
  NoneKept-cons dropped others (suc j) y found =
      let shift : suc n + j ≡ n + suc j = omega arith in rw (← shift) (others j y found)

pub last-select_cases :
    (keep : ℕ → ScopedVariable → Bool) (n : ℕ) (vars : List ScopedVariable)
    → ((w : IndexedVariable) × (last (select keep n vars) ≡ some w) × IsNearest keep n vars w)
      ⊎ ((last (select keep n vars) ≡ none) × NoneKept keep n vars)
unfolding select last
last-select_cases keep n [] = inr (refl, (λ j y found. cc))
last-select_cases keep n (v ∷ vs) = elim (last-select_cases keep (suc n) vs) [
  | inl (w, finds, nearest) ↦ elim (Bool-cases (keep n v)) [
    | inl kept ↦ inl (w, rw (kept, finds), IsNearest-later keep n v vs w nearest)
    | inr dropped ↦ inl (w, rw (dropped, finds), IsNearest-later keep n v vs w nearest)
  ]
  | inr (nothing, others) ↦ elim (Bool-cases (keep n v)) [
    | inl kept ↦ inl (
      record { var = v.var; index = n },
      rw (kept, nothing),
      IsNearest-here keep n v vs kept others,
    )
    | inr dropped ↦ inr (rw (dropped, nothing), NoneKept-cons keep n v vs dropped others)
  ]
]

is_available_parts :
    (b : Builder) (find : Variable) (idx : ℕ) (x : ScopedVariable)
    → is_available b find idx x ≡ true
    → (is_scope_active b x.scope_id ≡ true) × (x.var ≡ find)
is_available_parts b find idx x kept = elim (Bool-cases (is_scope_active b x.scope_id)) [
  | inr closed ↦ cc (rw closed at kept)
  | inl active ↦ (active, var_eq_sound x.var find (rw active at kept))
]

is_available-InScope :
    (b : Builder) (find : Variable) (idx : ℕ) (x : ScopedVariable)
    → get_elem? b.variables idx ≡ some x
    → is_available b find idx x ≡ true
    → InScope b idx find
is_available-InScope b find idx x found kept =
    let (active, same) = is_available_parts b find idx x kept in
    (x.scope_id, found ∙ ap (λ t. some (scoped x.scope_id t)) same, active)

InScope-is_available :
    (b : Builder) (find : Variable) (idx : ℕ)
    → InScope b idx find
    → (s : ℕ) × (get_elem? b.variables idx ≡ some (scoped s find))
      × (is_available b find idx (scoped s find) ≡ true)
InScope-is_available b find idx (s, found, active) = (s, found, rw (active, var_eq_refl find))

-- The nearest variable of a type, if there is one in scope, is in scope and has the type, and every
-- other such variable has a smaller index.
pub get_nearest_variable_cases :
    (b : Builder) (find : Variable)
    → ((idx : ℕ) × (get_nearest_variable b find ≡ some (record { var = find; index = idx }))
        × InScope b idx find
        × ((j : ℕ) → InScope b j find → j ≤ idx))
      ⊎ ((get_nearest_variable b find ≡ none) × ((j : ℕ) → ¬ InScope b j find))
unfolding get_nearest_variable available
get_nearest_variable_cases b find = elim (last-select_cases (is_available b find) 0 b.variables) [
  | inl (w, finds, (k, x, is, found, kept, later)) ↦
      let (_, same) = is_available_parts b find k x kept in
      let zero_plus : 0 + k ≡ k = omega arith in
      inl (
        k,
        finds
            ∙ ap some is
            ∙ ap (λ m. some (record { var = x.var; index = m })) zero_plus
            ∙ ap (λ t. some (record { var = t; index = k })) same,
        is_available-InScope b find k x found kept,
        (λ j here.
            let (s, found', kept') = InScope-is_available b find j here in
            later j (scoped s find) found' kept'),
      )
  | inr (nothing, others) ↦ inr (
    nothing,
    (λ j here.
        let (s, found, kept) = InScope-is_available b find j here in
        let other = others j (scoped s find) found in cc),
  )
]

-- A variable is found by its index exactly if it is in scope.
pub get_variable_cases :
    (b : Builder) (idx : ℕ)
    → ((v : Variable) × (get_variable b idx ≡ some (record { var = v; index = idx }))
        × InScope b idx v)
      ⊎ ((get_variable b idx ≡ none) × ((v : Variable) → ¬ InScope b idx v))
unfolding get_variable
get_variable_cases b idx = elim (Option-cases (get_elem? b.variables idx)) [
  | inl missing ↦ inr (rw (get_variable, missing), (λ v (s, found, active). cc))
  | inr (v, found) ↦ elim (Bool-cases (is_scope_active b v.scope_id)) [
    | inl active ↦ inl (v.var, rw (get_variable, found, active), (v.scope_id, found, active))
    | inr closed ↦ inr (
      rw (get_variable, found, closed),
      (λ w (s, found', active').
          let same : v ≡ scoped s w = cc in
          let at : v.scope_id ≡ s = ap (λ y. y.scope_id) same in cc),
    )
  ]
]

IsSelected-InScope :
    (b : Builder) (find : Variable) (w : IndexedVariable)
    → IsSelected (is_available b find) 0 b.variables w
    → InScope b w.index find
IsSelected-InScope b find w (k, x, at, found, _, kept) =
    let place : w.index ≡ k = omega arith in
    is_available-InScope b find w.index x (rw place found) kept

-- The available variables of a type are those in scope that have it.
pub available-InScope :
    (b : Builder) (find : Variable) → All (λ w. InScope b w.index find) (available b find)
unfolding available
available-InScope b find =
    All-mono (available b find) (IsSelected-InScope b find)
      (select-IsSelected (is_available b find) 0 b.variables)

pub available-some :
    (b : Builder) (find : Variable) (idx : ℕ) → InScope b idx find → available b find ≢ []
unfolding get_nearest_variable last
available-some b find idx here empty = elim (get_nearest_variable_cases b find) [
  | inr (_, others) ↦ others idx here
  | inl (at, finds, _, _) ↦ cc (ap last empty)
]
