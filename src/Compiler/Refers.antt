-- ===== src/Compiler/Refers.antt =====
-- The variables that compiled values refer to: the signing requests and the inputs of
-- workloads/ir-workload/fuzzamoto-ir/src/compiler.rs hold indices of variables.
use bitcoin_antithesis.Prelude.{
  ℕ, ◌≡◌, List, [], ◌∷◌, ◌++◌, Option, none, some, get_elem?, get_elem?-append, All,
}
use bitcoin_antithesis.Compiler.Values.{
  Value, SigningRequest, legacy, taproot, Scripts, Txo, TxInput,
}

abbrev pub HasTypeIfAny : List ℕ → Option ℕ → ℕ → Type 0
HasTypeIfAny Γ none t = Unit
HasTypeIfAny Γ (some i) t = get_elem? Γ i ≡ some t

-- A private key and its flags, or a spend.
abbrev pub RequestRefers : List ℕ → Option SigningRequest → Type 0
RequestRefers Γ none = Unit
RequestRefers Γ (some (legacy r)) =
    (get_elem? Γ r.private_key_var ≡ some 10) × (get_elem? Γ r.sighash_var ≡ some 4)
RequestRefers Γ (some (taproot r)) = HasTypeIfAny Γ r.spend_info_var 25

abbrev pub ScriptsRefers : List ℕ → Scripts → Type 0
ScriptsRefers Γ s = RequestRefers Γ s.requires_signing

abbrev pub TxoRefers : List ℕ → Txo → Type 0
TxoRefers Γ t = ScriptsRefers Γ t.scripts

-- The output that is spent, and the sequence.
abbrev pub InputRefers : List ℕ → TxInput → Type 0
InputRefers Γ i = (get_elem? Γ i.txo_var ≡ some 14) × (get_elem? Γ i.sequence_var ≡ some 3)

-- The variables that a value refers to exist, and have the types that the compiler looks them up with.
abbrev pub Refers : List ℕ → Value → Type 0
Refers Γ (Value.txo t) = TxoRefers Γ t
Refers Γ (Value.scripts s) = ScriptsRefers Γ s
Refers Γ (Value.tx t) = All (TxoRefers Γ) t.txos
Refers Γ (Value.tx_inputs i) = All (InputRefers Γ) i.inputs
Refers Γ (Value.tx_outputs o) = All (λ p. ScriptsRefers Γ p.0) o.outputs
Refers Γ (Value.coinbase_tx c) = All (ScriptsRefers Γ) c.scripts
Refers Γ _ = Unit

pub All-map :
    {A : Type 0} {P Q : A → Type 0} (xs : List A) → ((x : A) → P x → Q x) → All P xs → All Q xs
All-map [] f h = tt
All-map (x ∷ xs) f (h, hs) = (f x h, All-map xs f hs)

pub All-snoc :
    {A : Type 0} (P : A → Type 0) (xs : List A) (x : A) → All P xs → P x → All P (xs ++ x ∷ [])
All-snoc P [] x h g = (g, tt)
All-snoc P (y ∷ xs) x (h, hs) g = (h, All-snoc P xs x hs g)

module _ (Γ : List ℕ) (t : ℕ) where
  later : (i u : ℕ) → get_elem? Γ i ≡ some u → get_elem? (Γ ++ t ∷ []) i ≡ some u
  later i u e = get_elem?-append Γ (t ∷ []) i e

  RequestRefers-later :
      (r : Option SigningRequest) → RequestRefers Γ r → RequestRefers (Γ ++ t ∷ []) r
  RequestRefers-later none h = tt
  RequestRefers-later (some (legacy r)) h = (later _ _ h.0, later _ _ h.1)
  RequestRefers-later (some (taproot r)) h = spend r.spend_info_var h
    where
      spend : (v : Option ℕ) → HasTypeIfAny Γ v 25 → HasTypeIfAny (Γ ++ t ∷ []) v 25
      spend none h = tt
      spend (some i) h = later i 25 h

  pub Refers-later : (v : Value) → Refers Γ v → Refers (Γ ++ t ∷ []) v
  Refers-later (Value.txo o) h = RequestRefers-later o.scripts.requires_signing h
  Refers-later (Value.scripts s) h = RequestRefers-later s.requires_signing h
  Refers-later (Value.tx o) h =
      All-map o.txos (λ x. RequestRefers-later x.scripts.requires_signing) h
  Refers-later (Value.tx_inputs i) h = All-map i.inputs (λ x g. (later _ _ g.0, later _ _ g.1)) h
  Refers-later (Value.tx_outputs o) h =
      All-map o.outputs (λ x. RequestRefers-later x.0.requires_signing) h
  Refers-later (Value.coinbase_tx c) h =
      All-map c.scripts (λ x. RequestRefers-later x.requires_signing) h
  Refers-later _ h = tt
