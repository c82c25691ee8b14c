-- ===== src/Executor/Decode.antt =====
-- encoding/json as the executors use it on a tool's configuration: the map is marshalled, which
-- writes its keys in order, and unmarshalled into a struct. A key fits a field whose name it equals
-- but for case, a later key overwrites an earlier one, and null leaves the field as it is. Which text
-- a type error has is not modelled.
use Prim.Native.Nat.{◌%◌, ◌/◌, ◌^◌}
use mathlib.Core.Bool.{Bool, false}
use mathlib.Core.Option.{Option, none, some}
use mathlib.Core.List.{[]}
use agenthub_skill_runtime.Base.{Bytes, codes, equal_fold, ltb, ◌==◌, ◌&&◌, if◌then◌else◌}
use agenthub_skill_runtime.Base.Int.{ℤ}
use agenthub_skill_runtime.Base.Assoc.{Assoc, insert}
use agenthub_skill_runtime.Executor.Json.{
  Value, null, bool, float, int, str, obj, Object, empty, entry, Float64, to_int,
}
use agenthub_skill_runtime.Executor.Errors.{Error, leaf, Result, ok, err, ◌>>=◌}

abbrev pub type_error : Error
type_error = leaf (codes "json: cannot unmarshal value into Go struct field")

-- The struct field `name`, with `set` to read one value over what the field holds.
unfoldable pub decode_field {ℓ} :
    {A : Type ℓ} → Bytes → (Value → A → Result A) → Object → A → Result A
decode_field name set empty a = ok a
decode_field name set (entry k v o) a =
    if equal_fold k name
    then (set v a >>= λ b. decode_field name set o b)
    else decode_field name set o a

abbrev pub set_string : Value → Bytes → Result Bytes
set_string null s = ok s
set_string (str t) s = ok t
set_string _ s = err type_error

abbrev pub set_bool : Value → Bool → Result Bool
set_bool null b = ok b
set_bool (bool c) b = ok c
set_bool _ b = err type_error

-- A number with a fraction, or beyond int64, does not fit an int.
abbrev pub fits_int : Float64 → Bool
fits_int f = f.mantissa % 10 ^ f.places == 0 && ltb (f.mantissa / 10 ^ f.places) (2 ^ 63)

abbrev pub set_int : Value → ℤ → Result ℤ
set_int null i = ok i
set_int (float f) i = if fits_int f then ok (to_int f) else err type_error
set_int (int j) i = ok j
set_int _ i = err type_error

-- json.RawMessage: the value as it stands, null included
abbrev pub set_raw : Value → Option Value → Result (Option Value)
set_raw v r = ok (some v)

-- map[string]string
abbrev pub set_entry : Bytes → Value → Assoc Bytes → Result (Assoc Bytes)
set_entry k null m = ok (insert k [] m)
set_entry k (str s) m = ok (insert k s m)
set_entry k _ m = err type_error

unfoldable pub set_entries : Object → Assoc Bytes → Result (Assoc Bytes)
set_entries empty m = ok m
set_entries (entry k v o) m = set_entry k v m >>= λ m'. set_entries o m'

abbrev pub set_strings : Value → Assoc Bytes → Result (Assoc Bytes)
set_strings null m = ok []
set_strings (obj o) m = set_entries o m
set_strings _ m = err type_error

abbrev pub string_field : Bytes → Object → Result Bytes
string_field name o = decode_field name set_string o []

abbrev pub int_field : Bytes → Object → Result ℤ
int_field name o = decode_field name set_int o (ℤ.pos 0)

abbrev pub bool_field : Bytes → Object → Result Bool
bool_field name o = decode_field name set_bool o false

abbrev pub raw_field : Bytes → Object → Result (Option Value)
raw_field name o = decode_field name set_raw o none
