-- ===== src/Executor/Json.antt =====
-- The values of `any` that the runtime handles: decoded JSON, and the integers that Go code puts
-- into a result.
use Prim.Native.Nat.{ℕ, ◌/◌, ◌^◌}
use mathlib.Core.Bool.{Bool}
use mathlib.Core.Option.{Option, none, some}
use agenthub_skill_runtime.Base.{Bytes, eqb, if◌then◌else◌}
use agenthub_skill_runtime.Base.Int.{ℤ, pos, negsuc}

-- A float64 as encoding/json reads it from a number literal: sign, digits and decimal places.
pub record Float64 : Type 0 where
  pub negative : Bool
  pub mantissa : ℕ
  pub places : ℕ

-- int(f), towards zero
unfoldable pub to_int : Float64 → ℤ
to_int f =
    let n = f.mantissa / 10 ^ f.places in
    if f.negative then (elim n [ ℕ.zero ↦ pos 0 | ℕ.suc m ↦ negsuc m ]) else pos n

mutual
  pub data Value : Type 0 where
    null : Value
    bool : Bool → Value
    float : Float64 → Value
    int : ℤ → Value
    str : Bytes → Value
    arr : Values → Value
    obj : Object → Value

  pub data Values : Type 0 where
    nil : Values
    cons : Value → Values → Values

  -- map[string]any: the entries in the order of their keys, as json.Marshal writes them.
  pub data Object : Type 0 where
    empty : Object
    entry : Bytes → Value → Object → Object

-- v, ok := m[k]
unfoldable pub field? : Object → Bytes → Option Value
field? empty k = none
field? (entry j v o) k = if eqb j k then some v else field? o k

-- m[k].(string)
unfoldable pub as_string : Option Value → Option Bytes
as_string (some (str s)) = some s
as_string _ = none

-- m[k].(float64)
unfoldable pub as_float : Option Value → Option Float64
as_float (some (float f)) = some f
as_float _ = none

-- m[k].(int)
unfoldable pub as_int : Option Value → Option ℤ
as_int (some (int i)) = some i
as_int _ = none

-- m[k].(map[string]any)
unfoldable pub as_object : Option Value → Option Object
as_object (some (obj o)) = some o
as_object _ = none
