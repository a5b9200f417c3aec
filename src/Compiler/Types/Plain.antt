-- ===== src/Compiler/Types/Plain.antt =====
-- The Rust types of other plain data, for the downcasts of compiler.rs in workloads/ir-workload/
-- fuzzamoto-ir/src.
use Prim.Native.String.{String}
use bitcoin_antithesis.Prelude.{ℕ, ◌≡◌, refl, List, Option, none, some, arith}
use bitcoin_antithesis.Addr.{AddrRecord}
use bitcoin_antithesis.Operation.{Duration}
use bitcoin_antithesis.Compiler.Bitcoin.{Bytes}
use bitcoin_antithesis.Compiler.Values.{Value}
use bitcoin_antithesis.Compiler.Types.{RustType, IsDowncast, type_id}

unfoldable pub cast_string : Value → Option String
cast_string (Value.string x) = some x
cast_string _ = none

cast_string_ok :
    (v : Value) → type_id v ≡ 6 → (a : String) × (cast_string v ≡ some a) × (Value.string a ≡ v)
unfolding type_id cast_string
cast_string_ok (Value.string x) e = (x, refl, refl)
cast_string_ok _ e = absurd (omega arith)

pub string_laws : IsDowncast 6 (Value.string) cast_string
unfolding type_id cast_string
string_laws = record { wrap_id = λ _. refl; cast_wrap = λ _. refl; cast_ok = cast_string_ok }

abbrev pub as_string : RustType String
as_string = record { id = 6; wrap = Value.string; cast = cast_string; laws = string_laws }

unfoldable pub cast_duration : Value → Option Duration
cast_duration (Value.duration x) = some x
cast_duration _ = none

cast_duration_ok :
    (v : Value)
    → type_id v ≡ 7
    → (a : Duration) × (cast_duration v ≡ some a) × (Value.duration a ≡ v)
unfolding type_id cast_duration
cast_duration_ok (Value.duration x) e = (x, refl, refl)
cast_duration_ok _ e = absurd (omega arith)

pub duration_laws : IsDowncast 7 (Value.duration) cast_duration
unfolding type_id cast_duration
duration_laws = record { wrap_id = λ _. refl; cast_wrap = λ _. refl; cast_ok = cast_duration_ok }

abbrev pub as_duration : RustType Duration
as_duration = record { id = 7; wrap = Value.duration; cast = cast_duration; laws = duration_laws }

unfoldable pub cast_chars : Value → Option (List ℕ)
cast_chars (Value.chars x) = some x
cast_chars _ = none

cast_chars_ok :
    (v : Value) → type_id v ≡ 8 → (a : (List ℕ)) × (cast_chars v ≡ some a) × (Value.chars a ≡ v)
unfolding type_id cast_chars
cast_chars_ok (Value.chars x) e = (x, refl, refl)
cast_chars_ok _ e = absurd (omega arith)

pub chars_laws : IsDowncast 8 (Value.chars) cast_chars
unfolding type_id cast_chars
chars_laws = record { wrap_id = λ _. refl; cast_wrap = λ _. refl; cast_ok = cast_chars_ok }

abbrev pub as_chars : RustType (List ℕ)
as_chars = record { id = 8; wrap = Value.chars; cast = cast_chars; laws = chars_laws }

unfoldable pub cast_bytes : Value → Option Bytes
cast_bytes (Value.bytes x) = some x
cast_bytes _ = none

cast_bytes_ok :
    (v : Value) → type_id v ≡ 9 → (a : Bytes) × (cast_bytes v ≡ some a) × (Value.bytes a ≡ v)
unfolding type_id cast_bytes
cast_bytes_ok (Value.bytes x) e = (x, refl, refl)
cast_bytes_ok _ e = absurd (omega arith)

pub bytes_laws : IsDowncast 9 (Value.bytes) cast_bytes
unfolding type_id cast_bytes
bytes_laws = record { wrap_id = λ _. refl; cast_wrap = λ _. refl; cast_ok = cast_bytes_ok }

abbrev pub as_bytes : RustType Bytes
as_bytes = record { id = 9; wrap = Value.bytes; cast = cast_bytes; laws = bytes_laws }

unfoldable pub cast_array32 : Value → Option Bytes
cast_array32 (Value.array32 x) = some x
cast_array32 _ = none

cast_array32_ok :
    (v : Value) → type_id v ≡ 10 → (a : Bytes) × (cast_array32 v ≡ some a) × (Value.array32 a ≡ v)
unfolding type_id cast_array32
cast_array32_ok (Value.array32 x) e = (x, refl, refl)
cast_array32_ok _ e = absurd (omega arith)

pub array32_laws : IsDowncast 10 (Value.array32) cast_array32
unfolding type_id cast_array32
array32_laws = record { wrap_id = λ _. refl; cast_wrap = λ _. refl; cast_ok = cast_array32_ok }

abbrev pub as_array32 : RustType Bytes
as_array32 = record { id = 10; wrap = Value.array32; cast = cast_array32; laws = array32_laws }

unfoldable pub cast_addr_record : Value → Option AddrRecord
cast_addr_record (Value.addr_record x) = some x
cast_addr_record _ = none

cast_addr_record_ok :
    (v : Value)
    → type_id v ≡ 11
    → (a : AddrRecord) × (cast_addr_record v ≡ some a) × (Value.addr_record a ≡ v)
unfolding type_id cast_addr_record
cast_addr_record_ok (Value.addr_record x) e = (x, refl, refl)
cast_addr_record_ok _ e = absurd (omega arith)

pub addr_record_laws : IsDowncast 11 (Value.addr_record) cast_addr_record
unfolding type_id cast_addr_record
addr_record_laws = record {
  wrap_id = λ _. refl;
  cast_wrap = λ _. refl;
  cast_ok = cast_addr_record_ok;
}

abbrev pub as_addr_record : RustType AddrRecord
as_addr_record = record {
  id = 11;
  wrap = Value.addr_record;
  cast = cast_addr_record;
  laws = addr_record_laws;
}

unfoldable pub cast_live_time : Value → Option (Unit {0})
cast_live_time Value.live_time = some tt
cast_live_time _ = none

cast_live_time_ok :
    (v : Value)
    → type_id v ≡ 12
    → (a : (Unit {0})) × (cast_live_time v ≡ some a) × (Value.live_time ≡ v)
unfolding type_id cast_live_time
cast_live_time_ok Value.live_time e = (tt, refl, refl)
cast_live_time_ok _ e = absurd (omega arith)

pub live_time_laws : IsDowncast 12 (λ _. Value.live_time) cast_live_time
unfolding type_id cast_live_time
live_time_laws = record { wrap_id = λ _. refl; cast_wrap = λ _. refl; cast_ok = cast_live_time_ok }

abbrev pub as_live_time : RustType (Unit {0})
as_live_time = record {
  id = 12;
  wrap = λ _. Value.live_time;
  cast = cast_live_time;
  laws = live_time_laws;
}
