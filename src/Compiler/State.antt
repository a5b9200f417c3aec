-- ===== src/Compiler/State.antt =====
-- The compiler's state, its outcomes, and the access to its variables: workloads/ir-workload/
-- fuzzamoto-ir/src/compiler.rs. A map is an association list; the text of an error is left out.
use bitcoin_antithesis.Prelude.{
  ℕ, Bool, true, false, ◌&&◌, List, [], ◌∷◌, ◌++◌, Option, none, some, ◌==◌, if◌then◌else◌,
  get_elem?, set,
}
use bitcoin_antithesis.Compiler.Bitcoin.{Bytes}
use bitcoin_antithesis.Compiler.Values.{Value}
use bitcoin_antithesis.Compiler.Types.{RustType}

-- The text of a command is the list of its characters' numbers.
pub data CompiledAction : Type 0 where
  connect : ℕ → List ℕ → CompiledAction
  send_raw_message : ℕ → List ℕ → Bytes → CompiledAction
  set_time : ℕ → CompiledAction
  probe : CompiledAction

pub record CompiledMetadata : Type 0 where
  pub block_tx_var_map : List (Bytes × (ℕ × ℕ × List ℕ))
  pub connection_map : List (ℕ × ℕ)
  pub action_indices : List ℕ
  pub variable_indices : List ℕ
  pub instructions : ℕ

pub record CompiledProgram : Type 0 where
  pub actions : List CompiledAction
  pub metadata : CompiledMetadata

pub record Compiler : Type 0 where
  pub variables : List Value
  pub output : CompiledProgram
  pub last_compiled_instruction : ℕ

pub data CompilerError : Type 0 where
  misc_error incorrect_number_of_inputs variable_not_found incorrect_variable_type : CompilerError

-- A call returns, panics, or does not return; `lost` is the panic by the `unwrap` of a lookup that has
-- failed, or by an index into the inputs that is out of bounds.
pub data Exit (A : Type 0) : Type 0 where
  ok : A → Exit A
  err : CompilerError → Exit A
  panic : Exit A
  lost : CompilerError → Exit A
  diverge : Exit A

-- An error leaves the compiler as far as the call had changed it.
abbrev pub Run : Type 0 → Type 0
Run A = Compiler → Exit A × Compiler

abbrev pub and_then : {A B : Type 0} → Exit A × Compiler → (A → Run B) → Exit B × Compiler
and_then (ok a, s) f = f a s
and_then (err e, s) f = (err e, s)
and_then (panic, s) f = (panic, s)
and_then (lost cause, s) f = (lost cause, s)
and_then (diverge, s) f = (diverge, s)

infixl 5 ◌>>=◌ ◌>>◌
unfoldable pub ◌>>=◌ : {A B : Type 0} → Run A → (A → Run B) → Run B
◌>>=◌ m f s = and_then (m s) f

abbrev pub ◌>>◌ : {B : Type 0} → Run (Unit {0}) → Run B → Run B
m >> k = m >>= λ _. k

unfoldable pub pure : {A : Type 0} → A → Run A
pure a s = (ok a, s)

unfoldable pub raise : {A : Type 0} → CompilerError → Run A
raise e s = (err e, s)

unfoldable pub panics : {A : Type 0} → Run A
panics s = (panic, s)

unfoldable pub diverges : {A : Type 0} → Run A
diverges s = (diverge, s)

-- `ok_or`, and the `unwrap` of an option and of a result.
unfoldable pub or_raise : {A : Type 0} → CompilerError → Option A → Run A
or_raise e none = raise e
or_raise e (some a) = pure a

unfoldable pub unwrap : {A : Type 0} → Option A → Run A
unwrap none = panics
unwrap (some a) = pure a

unfoldable pub unwrapped : {A : Type 0} → Exit A × Compiler → Exit A × Compiler
unwrapped (err e, s) = (lost e, s)
unwrapped r = r

unfoldable pub expect : {A : Type 0} → Run A → Run A
unfolding unwrapped
expect m s = unwrapped (m s)

-- A match on an option.
unfoldable pub on_option : {A B : Type 0} → Option A → Run B → (A → Run B) → Run B
on_option none m f = m
on_option (some a) m f = f a

unfoldable pub gets : {A : Type 0} → (Compiler → A) → Run A
gets f s = (ok (f s), s)

unfoldable pub update_metadata : (CompiledMetadata → CompiledMetadata) → Run (Unit {0})
update_metadata f s =
    (ok tt, record s { output = record s.output { metadata = f s.output.metadata } })

unfoldable pub each : {A B : Type 0} → (A → Run B) → List A → Run (List B)
each f [] = pure []
each f (x ∷ xs) = do y ← f x; ys ← each f xs; pure (y ∷ ys)

unfoldable pub new_compiler : Compiler
new_compiler = record {
  variables = [];
  output = record {
    actions = [];
    metadata = record {
      block_tx_var_map = [];
      connection_map = [];
      action_indices = [];
      variable_indices = [];
      instructions = 0;
    };
  };
  last_compiled_instruction = 0;
}

unfoldable pub downcast : {A : Type 0} → Option A → Exit A
downcast none = err incorrect_variable_type
downcast (some a) = ok a

unfoldable pub found : {A : Type 0} → RustType A → Option Value → Exit A
unfolding downcast
found T none = err variable_not_found
found T (some v) = downcast (T.cast v)

unfoldable pub get_variable : {A : Type 0} → RustType A → ℕ → Run A
unfolding found
get_variable T index s = (found T (get_elem? s.variables index), s)

unfoldable pub input_index : List ℕ → ℕ → Run ℕ
input_index inputs index = or_raise incorrect_number_of_inputs (get_elem? inputs index)

-- `inputs[index]`, which panics where there is none.
abbrev pub input_at : List ℕ → ℕ → Run ℕ
input_at inputs index = expect (input_index inputs index)

unfoldable pub get_input : {A : Type 0} → RustType A → List ℕ → ℕ → Run A
get_input T inputs index = do i ← input_index inputs index; get_variable T i

unfoldable pub write_variable : {A : Type 0} → RustType A → ℕ → A → Run (Unit {0})
write_variable T index a s = (ok tt, record s { variables = set s.variables index (T.wrap a) })

-- `get_input_mut`, with the change that is made through the reference.
unfoldable pub update_input : {A : Type 0} → RustType A → List ℕ → ℕ → (A → A) → Run (Unit {0})
update_input T inputs index f = do
  i ← input_index inputs index
  a ← get_variable T i
  write_variable T i (f a)

unfoldable pub append_variable : {A : Type 0} → RustType A → A → Run (Unit {0})
append_variable T a s = (
  ok tt,
  record s {
    variables = s.variables ++ T.wrap a ∷ [];
    output = record s.output {
      metadata = record s.output.metadata {
        variable_indices =
            s.output.metadata.variable_indices ++ s.output.metadata.instructions ∷ [];
      };
    };
  },
)

unfoldable pub emit : CompiledAction → Run (Unit {0})
emit action s =
    (ok tt, record s { output = record s.output { actions = s.output.actions ++ action ∷ [] } })

-- `entry(key).or_insert(value)`.
abbrev pub or_insert : {K V : Type 0} → (K → K → Bool) → K → V → List (K × V) → List (K × V)
or_insert same k v [] = (k, v) ∷ []
or_insert same k v ((k', v') ∷ rest) =
    let inserted = or_insert same k v rest in
    if same k k' then (k', v') ∷ rest else (k', v') ∷ inserted

abbrev pub bytes_eq : Bytes → Bytes → Bool
bytes_eq [] [] = true
bytes_eq [] (_ ∷ _) = false
bytes_eq (_ ∷ _) [] = false
bytes_eq (x ∷ xs) (y ∷ ys) = x == y && bytes_eq xs ys
