-- ===== src/Compiler/Typed/Access.antt =====
-- The access to the compiled variables keeps and finds their types: compiler.rs of workloads/
-- ir-workload/fuzzamoto-ir/src.
use mathlib.Core.Option.{some-injective}
use bitcoin_antithesis.Prelude.{
  ℕ, zero, suc, ◌≡◌, refl, sym, ap, ◌∙◌, inl, inr, Option-cases, List, [], ◌∷◌, ◌++◌, map, some,
  get_elem?, set, All,
}
use bitcoin_antithesis.Compiler.Values.{Value}
use bitcoin_antithesis.Compiler.Types.{RustType, type_id}
use bitcoin_antithesis.Compiler.Refers.{Refers, Refers-later, All-map, All-snoc}
use bitcoin_antithesis.Compiler.State.{
  CompiledAction, CompiledMetadata, ok, Run, ◌>>=◌, pure, or_raise, expect, unwrapped,
  update_metadata, each, found, downcast, get_variable, input_index, input_at, get_input,
  write_variable, update_input, append_variable, emit,
}
use bitcoin_antithesis.Compiler.Typed.{
  types, HasInput, Fits, step-Types, HasTypes-get, Ends, Types, bind-Types, pure-Types, raise-Types,
  panics-Types, diverges-Types, or_raise-Types, unwrap-Types, gets-Types, if-Types, on_option-Types,
}

map-set :
    (vs : List Value) (i : ℕ) (w : Value)
    → get_elem? (map type_id vs) i ≡ some (type_id w)
    → map type_id (set vs i w) ≡ map type_id vs
map-set [] i w e = refl
map-set (v ∷ vs) zero w e = ap (λ t. t ∷ map type_id vs) (sym (some-injective _ _ e))
map-set (v ∷ vs) (suc i) w e = ap (λ ts. type_id v ∷ ts) (map-set vs i w e)

map-append :
    (vs : List Value) (w : Value) → map type_id (vs ++ w ∷ []) ≡ map type_id vs ++ type_id w ∷ []
map-append [] w = refl
map-append (v ∷ vs) w = ap (λ ts. type_id v ∷ ts) (map-append vs w)

All-set :
    {A : Type 0} (P : A → Type 0) (xs : List A) (i : ℕ) (x : A)
    → All P xs
    → P x
    → All P (set xs i x)
All-set P [] i x h g = tt
All-set P (y ∷ xs) zero x (h, hs) g = (g, hs)
All-set P (y ∷ xs) (suc i) x (h, hs) g = (h, All-set P xs i x hs g)

-- A lookup of a type that the variable has succeeds, and what is found fits.
found_at :
    {A : Type 0} (T : RustType A) (Γ : List ℕ) (vs : List Value) (i : ℕ)
    → get_elem? (map type_id vs) i ≡ some T.id
    → All (Refers Γ) vs
    → (a : A) × (found T (get_elem? vs i) ≡ ok a) × Refers Γ (T.wrap a)
unfolding found downcast
found_at T Γ [] i e h = cc
found_at T Γ (v ∷ vs) zero e h =
    let (a, cast, boxed) = T.laws.cast_ok v (some-injective _ _ e) in
    (a, rw cast refl, rw boxed h.0)
found_at T Γ (v ∷ vs) (suc i) e h = found_at T Γ vs i e h.1

module _ {A : Type 0} {Γ : List ℕ} where
  -- What follows the lookup of a variable may use what the value refers to.
  pub variable-Types :
      {B : Type 0} {Δ : List ℕ} (T : RustType A) (i : ℕ) (f : A → Run B)
      → get_elem? Γ i ≡ some T.id
      → ((a : A) → Refers Γ (T.wrap a) → Types Γ (f a) Δ)
      → Types Γ (get_variable T i >>= f) Δ
  unfolding ◌>>=◌ get_variable
  variable-Types T i f h g = record {
    ends = λ s e.
        let (a, looked, refers) = found_at T Γ s.variables i (rw e.typed h) e.refers in
        rw looked ((g a refers).ends s e);
  }

  pub write_variable-Types :
      (T : RustType A) (i : ℕ) (a : A)
      → get_elem? Γ i ≡ some T.id
      → Refers Γ (T.wrap a)
      → Types Γ (write_variable T i a) Γ
  unfolding write_variable
  write_variable-Types T i a h g = record {
    ends = λ s e. record {
      typed = map-set s.variables i (T.wrap a) (rw (e.typed, T.laws.wrap_id a) h) ∙ e.typed;
      refers = All-set (Refers Γ) s.variables i (T.wrap a) e.refers g;
    };
  }

  pub append_variable-Types :
      (T : RustType A) (a : A)
      → Refers Γ (T.wrap a)
      → Types Γ (append_variable T a) (Γ ++ T.id ∷ [])
  unfolding append_variable
  append_variable-Types T a g = record {
    ends = λ s e. record {
      typed = map-append s.variables (T.wrap a) ∙ rw (e.typed, T.laws.wrap_id a) refl;
      refers =
          All-snoc (Refers (Γ ++ T.id ∷ [])) s.variables (T.wrap a)
            (All-map s.variables (Refers-later Γ T.id) e.refers) (Refers-later Γ T.id (T.wrap a) g);
    };
  }

  -- A lookup that is unwrapped succeeds too.
  pub expected-Types :
      {B : Type 0} {Δ : List ℕ} (T : RustType A) (i : ℕ) (f : A → Run B)
      → get_elem? Γ i ≡ some T.id
      → ((a : A) → Refers Γ (T.wrap a) → Types Γ (f a) Δ)
      → Types Γ (expect (get_variable T i) >>= f) Δ
  unfolding ◌>>=◌ expect unwrapped get_variable
  expected-Types T i f h g = record {
    ends = λ s e.
        let (a, looked, refers) = found_at T Γ s.variables i (rw e.typed h) e.refers in
        rw looked ((g a refers).ends s e);
  }

-- An input that exists: what follows may use its type.
pub input_index-Types :
    {B : Type 0} {Γ Δ : List ℕ} {t : ℕ} (inputs : List ℕ) (k : ℕ) (f : ℕ → Run B)
    → HasInput Γ inputs k t
    → ((i : ℕ) → get_elem? Γ i ≡ some t → Types Γ (f i) Δ)
    → Types Γ (input_index inputs k >>= f) Δ
unfolding ◌>>=◌ input_index or_raise pure HasInput
input_index-Types {Γ} {Δ} {t} inputs k f h g = record {
  ends = elim (Option-cases (get_elem? inputs k)) [
    | inl missing ↦ absurd (rw missing at h)
    | inr (i, there) ↦ λ s e. rw there ((g i (rw there at h)).ends s e)
  ];
}

-- An index into the inputs that is not out of bounds.
pub input_at-Types :
    {B : Type 0} {Γ Δ : List ℕ} {t : ℕ} (inputs : List ℕ) (k : ℕ) (f : ℕ → Run B)
    → HasInput Γ inputs k t
    → ((i : ℕ) → get_elem? Γ i ≡ some t → Types Γ (f i) Δ)
    → Types Γ (input_at inputs k >>= f) Δ
unfolding ◌>>=◌ expect unwrapped input_index or_raise pure HasInput
input_at-Types {Γ} {Δ} {t} inputs k f h g = record {
  ends = elim (Option-cases (get_elem? inputs k)) [
    | inl missing ↦ absurd (rw missing at h)
    | inr (i, there) ↦ λ s e. rw there ((g i (rw there at h)).ends s e)
  ];
}

pub index-Types :
    {Γ : List ℕ} (t : ℕ) (inputs : List ℕ) (k : ℕ)
    → HasInput Γ inputs k t
    → Types Γ (input_index inputs k) Γ
unfolding input_index or_raise pure HasInput
index-Types t inputs k h = record {
  ends = elim (Option-cases (get_elem? inputs k)) [
    | inl missing ↦ absurd (rw missing at h)
    | inr (i, there) ↦ λ s e. rw there e
  ];
}

module _ {A : Type 0} {Γ : List ℕ} where
  pub input-Types :
      {B : Type 0} {Δ : List ℕ} (T : RustType A) (inputs : List ℕ) (k : ℕ) (f : A → Run B)
      → HasInput Γ inputs k T.id
      → ((a : A) → Refers Γ (T.wrap a) → Types Γ (f a) Δ)
      → Types Γ (get_input T inputs k >>= f) Δ
  unfolding get_input get_variable input_index or_raise pure ◌>>=◌ HasInput
  input-Types T inputs k f h g = record {
    ends = elim (Option-cases (get_elem? inputs k)) [
      | inl missing ↦ absurd (rw missing at h)
      | inr (i, there) ↦ λ s e. rw there ((variable-Types T i f (rw there at h) g).ends s e)
    ];
  }

  pub update_input-Types :
      (T : RustType A) (inputs : List ℕ) (k : ℕ) (f : A → A)
      → HasInput Γ inputs k T.id
      → ((a : A) → Refers Γ (T.wrap a) → Refers Γ (T.wrap (f a)))
      → Types Γ (update_input T inputs k f) Γ
  unfolding update_input
  update_input-Types T inputs k f h g =
      input_index-Types inputs k _ h λ i has.
        variable-Types T i _ has λ a refers. write_variable-Types T i (f a) has (g a refers)

  pub each-Types :
      {B : Type 0} (P : A → Type 0) (f : A → Run B) (xs : List A)
      → ((a : A) → P a → Types Γ (f a) Γ)
      → All P xs
      → Types Γ (each f xs) Γ
  unfolding each
  each-Types P f [] h g = pure-Types _
  each-Types P f (x ∷ xs) h (g, gs) =
      bind-Types _ _ (h x g) λ y. bind-Types _ _ (each-Types P f xs h gs) λ ys. pure-Types _

pub emit-Types : {Γ : List ℕ} (a : CompiledAction) → Types Γ (emit a) Γ
unfolding emit
emit-Types a = record { ends = λ s e. record { typed = e.typed; refers = e.refers } }

pub update_metadata-Types :
    {Γ : List ℕ} (f : CompiledMetadata → CompiledMetadata) → Types Γ (update_metadata f) Γ
unfolding update_metadata
update_metadata-Types f = record { ends = λ s e. record { typed = e.typed; refers = e.refers } }

pub ruleset typed = (
  input-Types, expected-Types, step-Types, pure-Types, raise-Types, panics-Types, diverges-Types,
  or_raise-Types, unwrap-Types, gets-Types, if-Types, on_option-Types, append_variable-Types,
  update_input-Types, emit-Types, update_metadata-Types, HasTypes-get,
)
