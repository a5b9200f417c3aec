-- ===== src/Compiler/Typed.antt =====
-- The types of the compiled variables: compiler.rs of workloads/ir-workload/fuzzamoto-ir/src. A call
-- that runs on variables of known types succeeds, with variables of known types, or fails for a
-- reason that is no lookup of a variable.
pub mod Access
pub mod Handlers
pub mod Lists
pub mod Scripts
pub mod Signing
pub mod Transactions
pub mod Blocks
pub mod Programs
pub mod Valid
use bitcoin_antithesis.Prelude.{
  ℕ, zero, suc, ◌≡◌, ◌∙◌, Bool, true, false, if◌then◌else◌, List, [], ◌∷◌, ◌++◌, map, Option, none,
  some, get_elem?, All,
}
use bitcoin_antithesis.Variable.{Variable}
use bitcoin_antithesis.Operation.{Operation, advance_time}
use bitcoin_antithesis.Operation.Signature.{get_output_variables, get_inner_output_variables}
use bitcoin_antithesis.Compiler.Types.{type_id}
use bitcoin_antithesis.Compiler.Refers.{Refers}
use bitcoin_antithesis.Compiler.State.{
  Compiler, misc_error, Exit, ok, err, panic, lost, diverge, Run, and_then, ◌>>=◌, pure, raise,
  panics, diverges, or_raise, unwrap, on_option, gets,
}

-- The id of the Rust type that the variables of a type are compiled to.
unfoldable pub type_of : Variable → ℕ
type_of Variable.nop = 0
type_of Variable.bytes = 9
type_of Variable.msg_type = 8
type_of Variable.node = 1
type_of Variable.connection = 1
type_of Variable.connection_type = 6
type_of Variable.duration = 7
type_of Variable.handshake_params = 0
type_of Variable.addr_record = 11
type_of Variable.mut_addr_list = 18
type_of Variable.const_addr_list = 20
type_of Variable.mut_addr_list_v2 = 19
type_of Variable.const_addr_list_v2 = 21
type_of Variable.time = 12
type_of Variable.size = 1
type_of Variable.block_height = 3
type_of Variable.compact_filter_type = 4
type_of Variable.scripts = 24
type_of Variable.mut_witness_stack = 22
type_of Variable.const_witness_stack = 22
type_of Variable.private_key = 10
type_of Variable.sig_hash_flags = 4
type_of Variable.txo = 14
type_of Variable.mut_tx = 26
type_of Variable.const_tx = 26
type_of Variable.mut_tx_inputs = 27
type_of Variable.const_tx_inputs = 27
type_of Variable.mut_tx_outputs = 28
type_of Variable.const_tx_outputs = 28
type_of Variable.const_amount = 2
type_of Variable.compact_block = 23
type_of Variable.nonce = 2
type_of Variable.tx_version = 3
type_of Variable.lock_time = 3
type_of Variable.sequence = 3
type_of Variable.mut_inventory = 17
type_of Variable.const_inventory = 17
type_of Variable.mut_block_transactions = 31
type_of Variable.const_block_transactions = 31
type_of Variable.block = 32
type_of Variable.header = 13
type_of Variable.block_version = 5
type_of Variable.mut_filter_load = 15
type_of Variable.const_filter_load = 15
type_of Variable.filter_add = 16
type_of Variable.coinbase_input = 29
type_of Variable.coinbase_tx = 30
type_of Variable.mut_block_txn = 33
type_of Variable.const_block_txn = 33
type_of Variable.const_coinbase_tx = 26
type_of Variable.taproot_spend_info = 25
type_of Variable.taproot_annex = 9

abbrev pub types : Compiler → List ℕ
types s = map type_id s.variables

-- The types of the variables that an operation is compiled to: the outputs and the inner outputs. The
-- compiler makes no variable for the output of AdvanceTime.
unfoldable pub compiled_types : Operation → List ℕ
compiled_types advance_time = []
compiled_types op = map type_of (get_output_variables op ++ get_inner_output_variables op)

-- The types `ts`, one after the other, at the end of `Γ`.
abbrev pub extend : List ℕ → List ℕ → List ℕ
extend Γ [] = Γ
extend Γ (t ∷ ts) = extend (Γ ++ t ∷ []) ts

-- The variable at an index has the type `t`.
abbrev pub HasType : List ℕ → Option ℕ → ℕ → Type 0
HasType Γ none t = ⊥
HasType Γ (some i) t = get_elem? Γ i ≡ some t

-- The input with the number `k` exists, and has the type `t`.
unfoldable pub HasInput : List ℕ → List ℕ → ℕ → ℕ → Type 0
HasInput Γ inputs k t = HasType Γ (get_elem? inputs k) t

unfoldable pub HasTypes : List ℕ → List ℕ → List Variable → Type 0
HasTypes Γ [] [] = Unit
HasTypes Γ (i ∷ is) (v ∷ vs) = (get_elem? Γ i ≡ some (type_of v)) × HasTypes Γ is vs
HasTypes Γ [] (_ ∷ _) = ⊥
HasTypes Γ (_ ∷ _) [] = ⊥

abbrev expected : List Variable → ℕ → Option ℕ
expected [] k = none
expected (v ∷ vs) zero = some (type_of v)
expected (v ∷ vs) (suc k) = expected vs k

pub HasTypes-get :
    (Γ inputs : List ℕ) (vs : List Variable) (k : ℕ) {t : ℕ}
    → HasTypes Γ inputs vs
    → expected vs k ≡ some t
    → HasInput Γ inputs k t
unfolding HasTypes HasInput
HasTypes-get Γ [] [] k h e = cc
HasTypes-get Γ [] (v ∷ vs) k h e = absurd h
HasTypes-get Γ (i ∷ is) [] k h e = absurd h
HasTypes-get Γ (i ∷ is) (v ∷ vs) zero h e = h.0 ∙ e
HasTypes-get Γ (i ∷ is) (v ∷ vs) (suc k) h e = HasTypes-get Γ is vs k h.1 e

-- The variables have the types `Γ`, and the variables that they refer to have the types that they are
-- looked up with.
pub record Fits (Γ : List ℕ) (s : Compiler) : Type 0 where
  pub typed : types s ≡ Γ
  pub refers : All (Refers Γ) s.variables

-- What a call that starts with typed variables comes to: a lookup neither reports an error, nor is
-- unwrapped in vain.
abbrev pub Ends : {A : Type 0} → List ℕ → Exit A × Compiler → Type 0
Ends Γ (ok a, s) = Fits Γ s
Ends Γ (err misc_error, s) = Unit
Ends Γ (err _, s) = ⊥
Ends Γ (lost _, s) = ⊥
Ends Γ (panic, s) = Unit
Ends Γ (diverge, s) = Unit

pub record Types {A : Type 0} (Γ : List ℕ) (m : Run A) (Δ : List ℕ) : Type 0 where
  pub ends : (s : Compiler) → Fits Γ s → Ends Δ (m s)

and_then-Ends :
    {A B : Type 0} {Δ Ξ : List ℕ} (r : Exit A × Compiler) (f : A → Run B)
    → Ends Δ r
    → ((a : A) → Types Δ (f a) Ξ)
    → Ends Ξ (and_then r f)
and_then-Ends (ok a, s) f e h = (h a).ends s e
and_then-Ends (err misc_error, s) f e h = tt
and_then-Ends (err _, s) f e h = absurd e
and_then-Ends (panic, s) f e h = tt
and_then-Ends (lost cause, s) f e h = absurd e
and_then-Ends (diverge, s) f e h = tt

module _ {A : Type 0} {Γ : List ℕ} where
  pub bind-Types :
      {B : Type 0} {Δ Ξ : List ℕ} (m : Run A) (f : A → Run B)
      → Types Γ m Δ
      → ((a : A) → Types Δ (f a) Ξ)
      → Types Γ (m >>= f) Ξ
  unfolding ◌>>=◌
  bind-Types m f g h = record { ends = λ s e. and_then-Ends (m s) f (g.ends s e) h }

  pub step-Types :
      {B : Type 0} {Ξ : List ℕ} (m : Run A) (f : A → Run B)
      → Types Γ m Γ
      → ((a : A) → Types Γ (f a) Ξ)
      → Types Γ (m >>= f) Ξ
  step-Types m f g h = bind-Types m f g h

  pub pure-Types : (a : A) → Types Γ (pure a) Γ
  unfolding pure
  pure-Types a = record { ends = λ s e. e }

  pub raise-Types : {Δ : List ℕ} → Types Γ (raise {A = A} misc_error) Δ
  unfolding raise
  raise-Types = record { ends = λ s e. tt }

  pub panics-Types : {Δ : List ℕ} → Types Γ (panics {A = A}) Δ
  unfolding panics
  panics-Types = record { ends = λ s e. tt }

  pub diverges-Types : {Δ : List ℕ} → Types Γ (diverges {A = A}) Δ
  unfolding diverges
  diverges-Types = record { ends = λ s e. tt }

  pub or_raise-Types : (o : Option A) → Types Γ (or_raise misc_error o) Γ
  unfolding or_raise
  or_raise-Types none = raise-Types
  or_raise-Types (some a) = pure-Types a

  pub unwrap-Types : (o : Option A) → Types Γ (unwrap o) Γ
  unfolding unwrap
  unwrap-Types none = panics-Types
  unwrap-Types (some a) = pure-Types a

  pub gets-Types : (f : Compiler → A) → Types Γ (gets f) Γ
  unfolding gets
  gets-Types f = record { ends = λ s e. e }

  pub if-Types :
      {Δ : List ℕ} (c : Bool) (m n : Run A)
      → Types Γ m Δ
      → Types Γ n Δ
      → Types Γ (if c then m else n) Δ
  if-Types true m n g h = g
  if-Types false m n g h = h

  pub on_option-Types :
      {B : Type 0} {Δ : List ℕ} (o : Option A) (m : Run B) (f : A → Run B)
      → Types Γ m Δ
      → ((a : A) → Types Γ (f a) Δ)
      → Types Γ (on_option o m f) Δ
  unfolding on_option
  on_option-Types none m f g h = g
  on_option-Types (some a) m f g h = h a
