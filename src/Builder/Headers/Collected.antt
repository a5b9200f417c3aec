-- ===== src/Builder/Headers/Collected.antt =====
-- Which headers `collect_sent` collects: get_nearest_sent_header of builder.rs in workloads/
-- ir-workload/fuzzamoto-ir/src.
use mathlib.Core.Option.{some-injective}
use bitcoin_antithesis.Prelude.{
  ℕ, zero, suc, ◌≡◌, refl, ap, subst, sym, true, List, [], ◌∷◌, some, ◌⊎◌, inl, inr, All, get_elem?,
  arith,
}
use bitcoin_antithesis.Partial.{Partial, done}
use bitcoin_antithesis.Variable.{Variable, var_eq, var_eq_refl}
use bitcoin_antithesis.Operation.{Operation, send_header, send_block}
use bitcoin_antithesis.Operation.Signature.{get_input_variables}
use bitcoin_antithesis.Instruction.{Instruction}
use bitcoin_antithesis.Builder.State.{ScopedVariable, contains, insert}
use bitcoin_antithesis.Builder.Headers.{assert_var, before, sent_by, collect_sent}
use bitcoin_antithesis.Builder.Headers.Pairs.{IsHeaded, before_block}
use bitcoin_antithesis.Builder.Sets.{contains-insert, insert-contains}
use bitcoin_antithesis.Builder.Typed.{IsAt, HasTypes, IsTypedIn, two_inputs}

-- The instruction sends the header, or the block that follows it.
abbrev pub Sends : ℕ → Instruction → Type 0
Sends header i =
    (connection : ℕ) × (((i.operation ≡ send_header) × (i.inputs ≡ connection ∷ header ∷ []))
      ⊎ ((i.operation ≡ send_block) × (i.inputs ≡ connection ∷ suc header ∷ [])))

-- The set grows by the header that the instruction sends, and by nothing else.
abbrev Grows : Instruction → List ℕ → Partial (List ℕ) → Type 0
Grows i sent result =
    (out : List ℕ) × (result ≡ done out)
    × ((x : ℕ) → contains out x ≡ true → (Sends x i) ⊎ (contains sent x ≡ true))
    × ((x : ℕ) → (Sends x i) ⊎ (contains sent x ≡ true) → contains out x ≡ true)

assert_var-IsAt :
    (vars : List ScopedVariable) (v : Variable) (idx : ℕ) (result : Partial (List ℕ))
    → IsAt vars v idx
    → assert_var v (get_elem? vars idx) result ≡ result
assert_var-IsAt vars v idx result (x, found, same) =
    let equal : var_eq x.var v ≡ true = rw same (var_eq_refl v) in rw (found, equal) refl

inserted-Grows :
    (i : Instruction) (header : ℕ) (sent : List ℕ)
    → Sends header i
    → ((x : ℕ) → Sends x i → x ≡ header)
    → Grows i sent (done (insert header sent))
inserted-Grows i header sent sends only = (
  insert header sent,
  refl,
  (λ x there. elim (contains-insert header x sent there) [
    | inl same ↦ inl (subst (λ y. Sends y i) (sym same) sends)
    | inr old ↦ inr old
  ]),
  (λ x h.
      insert-contains header x sent
        (elim h [ inl sent_here ↦ inl (only x sent_here) | inr old ↦ inr old ])),
)

abbrev instruction_of : Operation → List ℕ → Instruction
instruction_of op inputs = record { inputs = inputs; operation = op }

second_of : List ℕ → ℕ
second_of (_ ∷ x ∷ _) = x
second_of _ = 0

header_sent : (y c x : ℕ) → Sends y (instruction_of send_header (c ∷ x ∷ [])) → y ≡ x
unfolding second_of
header_sent y c x (c', inl (_, same)) = sym (ap second_of same)
header_sent y c x (c', inr (other, _)) = cc

block_sent : (y c j : ℕ) → Sends y (instruction_of send_block (c ∷ suc j ∷ [])) → y ≡ j
unfolding second_of
block_sent y c j (c', inl (other, _)) = cc
block_sent y c j (c', inr (_, same)) = let equal : suc j ≡ suc y = ap second_of same in omega arith

send_header-Grows :
    (vars : List ScopedVariable) (inputs sent : List ℕ)
    → HasTypes vars inputs (Variable.connection ∷ Variable.header ∷ [])
    → Grows (instruction_of send_header inputs) sent (sent_by vars send_header inputs sent)
unfolding sent_by
send_header-Grows vars inputs sent typed =
    let (c, x, two, at) = two_inputs vars inputs Variable.connection Variable.header typed in
    rw (two, assert_var-IsAt vars Variable.header x (done (insert x sent)) at)
      (inserted-Grows (instruction_of send_header (c ∷ x ∷ [])) x sent (c, inl (refl, refl))
        (λ y sends. header_sent y c x sends))

-- The block's header stands before it, so that the subtraction gives the header's index.
send_block-Grows :
    (vars : List ScopedVariable) (inputs sent : List ℕ)
    → IsHeaded vars
    → HasTypes vars inputs (Variable.connection ∷ Variable.block ∷ [])
    → Grows (instruction_of send_block inputs) sent (sent_by vars send_block inputs sent)
unfolding sent_by
send_block-Grows vars inputs sent headed_vars typed =
    let (c, x, two, at) = two_inputs vars inputs Variable.connection Variable.block typed in
    let (y, found, same) = at in
    let (j, _, place, _, _) = before_block vars x y headed_vars found same in
    let inserted : ℕ → Partial (List ℕ) = λ header. done (insert header sent) in
    rw (two, assert_var-IsAt vars Variable.block x (before x inserted) at, place)
      (inserted-Grows (instruction_of send_block (c ∷ suc j ∷ [])) j sent (c, inr (refl, refl))
        (λ y sends. block_sent y c j sends))

sent_by-Grows :
    (vars : List ScopedVariable) (op : Operation) (inputs sent : List ℕ)
    → IsHeaded vars
    → HasTypes vars inputs (get_input_variables op)
    → Grows (instruction_of op inputs) sent (sent_by vars op inputs sent)
unfolding sent_by get_input_variables
sent_by-Grows vars send_header inputs sent headed_vars typed =
    send_header-Grows vars inputs sent typed
sent_by-Grows vars send_block inputs sent headed_vars typed =
    send_block-Grows vars inputs sent headed_vars typed
sent_by-Grows vars _ inputs sent headed_vars typed = (
  sent,
  refl,
  (λ x there. inr there),
  (λ x h. elim h [ inl (c, inl (same, _)) ↦ cc | inl (c, inr (same, _)) ↦ cc | inr there ↦ there ]),
)

abbrev pub IsSentIn : List Instruction → ℕ → Type 0
IsSentIn is header = (k : ℕ) × (i : Instruction) × (get_elem? is k ≡ some i) × Sends header i

-- The set that is collected is the set of the headers that are sent.
pub collect_sent-IsSentIn :
    (vars : List ScopedVariable) (is : List Instruction) (sent : List ℕ)
    → IsHeaded vars
    → All (IsTypedIn vars) is
    → (out : List ℕ) × (collect_sent vars is sent ≡ done out)
      × ((x : ℕ) → contains out x ≡ true → (IsSentIn is x) ⊎ (contains sent x ≡ true))
      × ((x : ℕ) → (IsSentIn is x) ⊎ (contains sent x ≡ true) → contains out x ≡ true)
unfolding collect_sent
collect_sent-IsSentIn vars [] sent headed_vars typed = (
  sent,
  refl,
  (λ x there. inr there),
  (λ x h. elim h [ inl (k, i, found, _) ↦ cc | inr there ↦ there ]),
)
collect_sent-IsSentIn vars (i ∷ is) sent headed_vars (first, typed) =
    let (next, grows, known, kept) =
      sent_by-Grows vars i.operation i.inputs sent headed_vars first in
    let (out, collects, known', kept') = collect_sent-IsSentIn vars is next headed_vars typed in
    (
      out,
      rw (collect_sent, grows, collects) refl,
      (λ x there. elim (known' x there) [
        | inl (k, j, found, sends) ↦ inl (suc k, j, found, sends)
        | inr before_it ↦ elim (known x before_it) [
          | inl sends ↦ inl (0, i, refl, sends)
          | inr old ↦ inr old
        ]
      ]),
      (λ x h. kept' x (elim h [
        | inl (zero, j, found, sends) ↦
            inr (kept x (inl (subst (Sends x) (sym (some-injective i j found)) sends)))
        | inl (suc k, j, found, sends) ↦ inl (k, j, found, sends)
        | inr old ↦ inr (kept x (inr old))
      ])),
    )
