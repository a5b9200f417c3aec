-- ===== src/Compiler/Spent.antt =====
-- What the outputs of a transaction spend: the arms of AddTxOutput and AddCoinbaseTxOutput of
-- workloads/ir-workload/fuzzamoto-ir/src/compiler.rs.
use mathlib.Core.List.{append-nil, append_assoc}
use bitcoin_antithesis.Prelude.{
  ℕ, ◌+◌, ◌-◌, ◌≤◌, ◌≡◌, refl, sym, ◌∙◌, ap₂, subst, inl, inr, Bool-cases, leb, if◌then◌else◌, List,
  [], ◌∷◌, ◌++◌, arith,
}
use bitcoin_antithesis.Compiler.Values.{Scripts, TxOutputs}
use bitcoin_antithesis.Compiler.Transactions.{push_output, empty_outputs}

-- The outputs that a sequence of additions makes.
abbrev pub add_outputs : List (Scripts × ℕ) → TxOutputs → TxOutputs
add_outputs [] o = o
add_outputs ((scripts, amount) ∷ asked) o = add_outputs asked (push_output scripts amount o)

abbrev pub total : List (Scripts × ℕ) → ℕ
total [] = 0
total ((_, amount) ∷ outputs) = amount + total outputs

-- Each output has the scripts that were asked for, and no more than that amount.
abbrev pub IsGranted : List (Scripts × ℕ) → List (Scripts × ℕ) → Type 0
IsGranted [] [] = Unit
IsGranted ((s, asked) ∷ rest) ((s', paid) ∷ outputs) =
    (s' ≡ s) × (paid ≤ asked) × IsGranted rest outputs
IsGranted [] (_ ∷ _) = ⊥
IsGranted (_ ∷ _) [] = ⊥

total-append : (xs ys : List (Scripts × ℕ)) → total (xs ++ ys) ≡ total xs + total ys
total-append [] ys = omega arith
total-append (x ∷ xs) ys = omega (arith, total-append xs ys)

-- What is added to outputs, and what is left of the fees.
record IsPaid (asked : List (Scripts × ℕ)) (o p : TxOutputs) : Type 0 where
  granted : List (Scripts × ℕ)
  outputs : p.outputs ≡ o.outputs ++ granted
  in_order : IsGranted asked granted
  kept : total granted + p.fees ≡ o.fees
  whole : total asked ≤ o.fees → granted ≡ asked

abbrev paid_of : ℕ → ℕ → ℕ
paid_of amount fees = if leb amount fees then amount else fees

paid_of-bounds :
    (amount fees : ℕ)
    → (paid_of amount fees ≤ amount)
      × (paid_of amount fees ≤ fees)
      × (amount ≤ fees → paid_of amount fees ≡ amount)
paid_of-bounds amount fees = elim (Bool-cases (leb amount fees)) [
  | inl fits ↦ rw fits (omega arith, ground arith, λ _. refl)
  | inr over ↦ rw over (ground arith, omega arith, λ h. ground arith)
]

add_outputs-IsPaid :
    (asked : List (Scripts × ℕ)) (o : TxOutputs) → IsPaid asked o (add_outputs asked o)
unfolding push_output
add_outputs-IsPaid [] o = record {
  granted = [];
  outputs = sym (append-nil o.outputs);
  in_order = tt;
  kept = omega arith;
  whole = λ h. refl;
}
add_outputs-IsPaid ((scripts, amount) ∷ asked) o =
    let later = add_outputs-IsPaid asked (push_output scripts amount o) in
    let paid = paid_of amount o.fees in
    let (at_most, within, exact) = paid_of-bounds amount o.fees in
    record {
      granted = (scripts, paid) ∷ later.granted;
      outputs = later.outputs ∙ append_assoc o.outputs ((scripts, paid) ∷ []) later.granted;
      in_order = (refl, at_most, later.in_order);
      kept = omega (arith, later.kept);
      whole = λ h.
          let all : paid ≡ amount = exact (omega arith) in
          ap₂ (λ a rest. (scripts, a) ∷ rest) all
            (later.whole (subst (λ a. total asked ≤ o.fees - a) (sym all) (omega arith)));
    }

-- However many outputs are added to those of a transaction with inputs worth `value`, they carry the
-- scripts in the order of the additions and no more than the amounts asked for; what they carry and
-- the fees that are left make up the value, and if the value is enough, every amount is paid in full.
pub add_outputs-IsGranted :
    (asked : List (Scripts × ℕ)) (value : ℕ)
    → (let o = add_outputs asked (empty_outputs value) in
        IsGranted asked o.outputs
        × (total o.outputs + o.fees ≡ value)
        × (total asked ≤ value → o.outputs ≡ asked))
add_outputs-IsGranted asked value =
    let paid = add_outputs-IsPaid asked (empty_outputs value) in
    (rw paid.outputs paid.in_order, rw paid.outputs paid.kept, λ h. paid.outputs ∙ paid.whole h)
