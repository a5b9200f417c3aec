-- ===== src/Compiler/Types/Numbers.antt =====
-- The Rust types of numbers, for the downcasts of compiler.rs in workloads/ir-workload/
-- fuzzamoto-ir/src.
use bitcoin_antithesis.Prelude.{ℕ, ℤ, ◌≡◌, refl, Option, none, some, arith}
use bitcoin_antithesis.Compiler.Values.{Value}
use bitcoin_antithesis.Compiler.Types.{RustType, IsDowncast, type_id}

unfoldable pub cast_nop : Value → Option (Unit {0})
cast_nop Value.nop = some tt
cast_nop _ = none

cast_nop_ok :
    (v : Value) → type_id v ≡ 0 → (a : (Unit {0})) × (cast_nop v ≡ some a) × (Value.nop ≡ v)
unfolding type_id cast_nop
cast_nop_ok Value.nop e = (tt, refl, refl)
cast_nop_ok _ e = absurd (omega arith)

pub nop_laws : IsDowncast 0 (λ _. Value.nop) cast_nop
unfolding type_id cast_nop
nop_laws = record { wrap_id = λ _. refl; cast_wrap = λ _. refl; cast_ok = cast_nop_ok }

abbrev pub as_nop : RustType (Unit {0})
as_nop = record { id = 0; wrap = λ _. Value.nop; cast = cast_nop; laws = nop_laws }

unfoldable pub cast_usize : Value → Option ℕ
cast_usize (Value.usize x) = some x
cast_usize _ = none

cast_usize_ok :
    (v : Value) → type_id v ≡ 1 → (a : ℕ) × (cast_usize v ≡ some a) × (Value.usize a ≡ v)
unfolding type_id cast_usize
cast_usize_ok (Value.usize x) e = (x, refl, refl)
cast_usize_ok _ e = absurd (omega arith)

pub usize_laws : IsDowncast 1 (Value.usize) cast_usize
unfolding type_id cast_usize
usize_laws = record { wrap_id = λ _. refl; cast_wrap = λ _. refl; cast_ok = cast_usize_ok }

abbrev pub as_usize : RustType ℕ
as_usize = record { id = 1; wrap = Value.usize; cast = cast_usize; laws = usize_laws }

unfoldable pub cast_u64 : Value → Option ℕ
cast_u64 (Value.u64 x) = some x
cast_u64 _ = none

cast_u64_ok : (v : Value) → type_id v ≡ 2 → (a : ℕ) × (cast_u64 v ≡ some a) × (Value.u64 a ≡ v)
unfolding type_id cast_u64
cast_u64_ok (Value.u64 x) e = (x, refl, refl)
cast_u64_ok _ e = absurd (omega arith)

pub u64_laws : IsDowncast 2 (Value.u64) cast_u64
unfolding type_id cast_u64
u64_laws = record { wrap_id = λ _. refl; cast_wrap = λ _. refl; cast_ok = cast_u64_ok }

abbrev pub as_u64 : RustType ℕ
as_u64 = record { id = 2; wrap = Value.u64; cast = cast_u64; laws = u64_laws }

unfoldable pub cast_u32 : Value → Option ℕ
cast_u32 (Value.u32 x) = some x
cast_u32 _ = none

cast_u32_ok : (v : Value) → type_id v ≡ 3 → (a : ℕ) × (cast_u32 v ≡ some a) × (Value.u32 a ≡ v)
unfolding type_id cast_u32
cast_u32_ok (Value.u32 x) e = (x, refl, refl)
cast_u32_ok _ e = absurd (omega arith)

pub u32_laws : IsDowncast 3 (Value.u32) cast_u32
unfolding type_id cast_u32
u32_laws = record { wrap_id = λ _. refl; cast_wrap = λ _. refl; cast_ok = cast_u32_ok }

abbrev pub as_u32 : RustType ℕ
as_u32 = record { id = 3; wrap = Value.u32; cast = cast_u32; laws = u32_laws }

unfoldable pub cast_u8 : Value → Option ℕ
cast_u8 (Value.u8 x) = some x
cast_u8 _ = none

cast_u8_ok : (v : Value) → type_id v ≡ 4 → (a : ℕ) × (cast_u8 v ≡ some a) × (Value.u8 a ≡ v)
unfolding type_id cast_u8
cast_u8_ok (Value.u8 x) e = (x, refl, refl)
cast_u8_ok _ e = absurd (omega arith)

pub u8_laws : IsDowncast 4 (Value.u8) cast_u8
unfolding type_id cast_u8
u8_laws = record { wrap_id = λ _. refl; cast_wrap = λ _. refl; cast_ok = cast_u8_ok }

abbrev pub as_u8 : RustType ℕ
as_u8 = record { id = 4; wrap = Value.u8; cast = cast_u8; laws = u8_laws }

unfoldable pub cast_i32 : Value → Option ℤ
cast_i32 (Value.i32 x) = some x
cast_i32 _ = none

cast_i32_ok : (v : Value) → type_id v ≡ 5 → (a : ℤ) × (cast_i32 v ≡ some a) × (Value.i32 a ≡ v)
unfolding type_id cast_i32
cast_i32_ok (Value.i32 x) e = (x, refl, refl)
cast_i32_ok _ e = absurd (omega arith)

pub i32_laws : IsDowncast 5 (Value.i32) cast_i32
unfolding type_id cast_i32
i32_laws = record { wrap_id = λ _. refl; cast_wrap = λ _. refl; cast_ok = cast_i32_ok }

abbrev pub as_i32 : RustType ℤ
as_i32 = record { id = 5; wrap = Value.i32; cast = cast_i32; laws = i32_laws }
