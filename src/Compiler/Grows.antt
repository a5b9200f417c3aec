-- ===== src/Compiler/Grows.antt =====
-- What the handlers do to the records of the compiler, whatever their outcome: compiler.rs of
-- workloads/ir-workload/fuzzamoto-ir/src.
pub mod Handlers
pub mod Signing
pub mod Chain
pub mod Blocks
pub mod Instructions
pub mod Indices
pub mod Traced
use mathlib.Core.List.{append-nil, append_assoc}
use native.Mathlib.Nat.{zero-add, suc-add}
use bitcoin_antithesis.Prelude.{
  Bool, true, false, if◌then◌else◌, ℕ, zero, suc, ◌+◌, ◌≡◌, refl, sym, ap, ◌∙◌, List, [], ◌∷◌, ◌++◌,
  Option, none, some, arith, length, length-append, length-set, replicate,
}
use bitcoin_antithesis.Compiler.Types.{RustType}
use bitcoin_antithesis.Compiler.State.{
  CompiledAction, CompiledMetadata, Compiler, CompilerError, Exit, ok, err, panic, lost, diverge,
  Run, and_then, unwrapped, ◌>>=◌, pure, raise, panics, diverges, or_raise, unwrap, expect, gets,
  update_metadata, each, get_variable, input_index, get_input, write_variable, update_input,
  append_variable, emit, on_option,
}
use bitcoin_antithesis.Compiler.Records.{Grows, noted, noted_after, Grows-refl, Grows-trans}

-- Whatever the call does, and whatever its outcome; it neither reads nor changes the note.
pub record Growing {A : Type 0} (m : Run A) : Type 0 where
  pub grows : (s : Compiler) → Grows s (m s).1
  pub framed : (n : ℕ) (s : Compiler) → m (noted n s) ≡ noted_after n (m s)

and_then-Grows :
    {A B : Type 0} (s : Compiler) (r : Exit A × Compiler) (f : A → Run B)
    → Grows s r.1
    → ((a : A) → Growing (f a))
    → Grows s (and_then r f).1
and_then-Grows s (ok a, t) f g h = Grows-trans g ((h a).grows t)
and_then-Grows s (err e, t) f g h = g
and_then-Grows s (panic, t) f g h = g
and_then-Grows s (lost cause, t) f g h = g
and_then-Grows s (diverge, t) f g h = g

pub and_then-noted :
    {A B : Type 0} (n : ℕ) (r : Exit A × Compiler) (f : A → Run B)
    → ((a : A) (t : Compiler) → f a (noted n t) ≡ noted_after n (f a t))
    → and_then (noted_after n r) f ≡ noted_after n (and_then r f)
and_then-noted n (ok a, t) f h = h a t
and_then-noted n (err e, t) f h = refl
and_then-noted n (panic, t) f h = refl
and_then-noted n (lost cause, t) f h = refl
and_then-noted n (diverge, t) f h = refl

module _ {A : Type 0} where
  pub bind-Growing :
      {B : Type 0} (m : Run A) (f : A → Run B)
      → Growing m
      → ((a : A) → Growing (f a))
      → Growing (m >>= f)
  unfolding ◌>>=◌
  bind-Growing m f g h = record {
    grows = λ s. and_then-Grows s (m s) f (g.grows s) h;
    framed = λ n s.
        ap (λ r. and_then r f) (g.framed n s) ∙ and_then-noted n (m s) f (λ a. (h a).framed n);
  }

  pub pure-Growing : (a : A) → Growing (pure a)
  unfolding pure
  pure-Growing a = record { grows = Grows-refl; framed = λ n s. refl }

  pub raise-Growing : (e : CompilerError) → Growing (raise {A = A} e)
  unfolding raise
  raise-Growing e = record { grows = Grows-refl; framed = λ n s. refl }

  pub panics-Growing : Growing (panics {A = A})
  unfolding panics
  panics-Growing = record { grows = Grows-refl; framed = λ n s. refl }

  pub diverges-Growing : Growing (diverges {A = A})
  unfolding diverges
  diverges-Growing = record { grows = Grows-refl; framed = λ n s. refl }

  pub or_raise-Growing : (e : CompilerError) (o : Option A) → Growing (or_raise e o)
  unfolding or_raise
  or_raise-Growing e none = raise-Growing e
  or_raise-Growing e (some a) = pure-Growing a

  pub unwrap-Growing : (o : Option A) → Growing (unwrap o)
  unfolding unwrap
  unwrap-Growing none = panics-Growing
  unwrap-Growing (some a) = pure-Growing a

  unwrapped-Grows : (s : Compiler) (r : Exit A × Compiler) → Grows s r.1 → Grows s (unwrapped r).1
  unfolding unwrapped
  unwrapped-Grows s (ok a, t) g = g
  unwrapped-Grows s (err e, t) g = g
  unwrapped-Grows s (panic, t) g = g
  unwrapped-Grows s (lost cause, t) g = g
  unwrapped-Grows s (diverge, t) g = g

  unwrapped-noted :
      (n : ℕ) (r : Exit A × Compiler) → unwrapped (noted_after n r) ≡ noted_after n (unwrapped r)
  unfolding unwrapped
  unwrapped-noted n (ok a, t) = refl
  unwrapped-noted n (err e, t) = refl
  unwrapped-noted n (panic, t) = refl
  unwrapped-noted n (lost cause, t) = refl
  unwrapped-noted n (diverge, t) = refl

  pub expect-Growing : (m : Run A) → Growing m → Growing (expect m)
  unfolding expect
  expect-Growing m g = record {
    grows = λ s. unwrapped-Grows s (m s) (g.grows s);
    framed = λ n s. ap unwrapped (g.framed n s) ∙ unwrapped-noted n (m s);
  }

  pub gets-Growing :
      (f : Compiler → A) → ((n : ℕ) (s : Compiler) → f (noted n s) ≡ f s) → Growing (gets f)
  unfolding gets
  gets-Growing f h = record {
    grows = Grows-refl;
    framed = λ n s. ap (λ a. (ok a, noted n s)) (h n s);
  }

pub input_index-Growing : (inputs : List ℕ) (i : ℕ) → Growing (input_index inputs i)
unfolding input_index
input_index-Growing inputs i = or_raise-Growing _ _

module _ {A : Type 0} where
  pub each-Growing :
      {B : Type 0} (f : A → Run B) (xs : List A) → ((a : A) → Growing (f a)) → Growing (each f xs)
  unfolding each
  each-Growing f [] h = pure-Growing []
  each-Growing f (x ∷ xs) h =
      bind-Growing _ _ (h x) λ y. bind-Growing _ _ (each-Growing f xs h) λ ys. pure-Growing (y ∷ ys)

  pub get_variable-Growing : (T : RustType A) (i : ℕ) → Growing (get_variable T i)
  unfolding get_variable
  get_variable-Growing T i = record { grows = Grows-refl; framed = λ n s. refl }

  pub get_input-Growing :
      (T : RustType A) (inputs : List ℕ) (i : ℕ) → Growing (get_input T inputs i)
  unfolding get_input
  get_input-Growing T inputs i =
      bind-Growing _ _ (input_index-Growing inputs i) λ k. get_variable-Growing T k

  pub write_variable-Growing : (T : RustType A) (i : ℕ) (a : A) → Growing (write_variable T i a)
  unfolding write_variable
  write_variable-Growing T i a = record {
    grows = λ s. record {
      instructions = refl;
      action_indices = refl;
      made = 0;
      variables = omega (arith, length-set s.variables i (T.wrap a));
      variable_indices = sym (append-nil s.output.metadata.variable_indices);
      more = [];
      actions = sym (append-nil s.output.actions);
    };
    framed = λ n s. refl;
  }

  pub update_input-Growing :
      (T : RustType A) (inputs : List ℕ) (i : ℕ) (f : A → A) → Growing (update_input T inputs i f)
  unfolding update_input
  update_input-Growing T inputs i f =
      bind-Growing _ _ (input_index-Growing inputs i)
        λ k. bind-Growing _ _ (get_variable-Growing T k) λ a. write_variable-Growing T k (f a)

  pub append_variable-Growing : (T : RustType A) (a : A) → Growing (append_variable T a)
  unfolding append_variable
  append_variable-Growing T a = record {
    grows = λ s. record {
      instructions = refl;
      action_indices = refl;
      made = 1;
      variables = length-append s.variables (T.wrap a ∷ []);
      variable_indices = refl;
      more = [];
      actions = sym (append-nil s.output.actions);
    };
    framed = λ n s. refl;
  }

pub emit-Growing : (a : CompiledAction) → Growing (emit a)
unfolding emit
emit-Growing a = record {
  grows = λ s. record {
    instructions = refl;
    action_indices = refl;
    made = 0;
    variables = omega arith;
    variable_indices = sym (append-nil s.output.metadata.variable_indices);
    more = a ∷ [];
    actions = refl;
  };
  framed = λ n s. refl;
}

-- The handlers change nothing but the two maps of the metadata.
pub update_metadata-Growing :
    (f : CompiledMetadata → CompiledMetadata)
    → ((m : CompiledMetadata)
        → ((f m).instructions ≡ m.instructions)
          × ((f m).action_indices ≡ m.action_indices)
          × ((f m).variable_indices ≡ m.variable_indices))
    → Growing (update_metadata f)
unfolding update_metadata
update_metadata-Growing f h = record {
  grows = λ s. record {
    instructions = (h s.output.metadata).0;
    action_indices = (h s.output.metadata).1;
    made = 0;
    variables = omega arith;
    variable_indices =
        (h s.output.metadata).2 ∙ sym (append-nil s.output.metadata.variable_indices);
    more = [];
    actions = sym (append-nil s.output.actions);
  };
  framed = λ n s. refl;
}

pub if-Growing :
    {A : Type 0} (c : Bool) (m n : Run A) → Growing m → Growing n → Growing (if c then m else n)
if-Growing true m n g h = g
if-Growing false m n g h = h

module _ {A B : Type 0} where
  pub on_option-Growing :
      (o : Option A) (m : Run B) (f : A → Run B)
      → Growing m
      → ((a : A) → Growing (f a))
      → Growing (on_option o m f)
  unfolding on_option
  on_option-Growing none m f g h = g
  on_option-Growing (some a) m f g h = h a

pub ruleset growing = (
  if-Growing, on_option-Growing, bind-Growing, pure-Growing, raise-Growing, panics-Growing,
  diverges-Growing, or_raise-Growing, unwrap-Growing, expect-Growing, gets-Growing,
  get_variable-Growing, input_index-Growing, get_input-Growing, write_variable-Growing,
  update_input-Growing, append_variable-Growing, emit-Growing,
)
