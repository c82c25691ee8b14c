-- ===== src/Executor/Registration.antt =====
-- internal/executor/registry.go
use mathlib.Core.Path.{◌≡◌}
use mathlib.Core.Logic.{◌↔◌}
use mathlib.Core.Bool.{true}
use mathlib.Core.Option.{none, some}
use mathlib.Core.List.{List, [], ◌++◌}
use native.Mathlib.Omega.{arith}
use agenthub_skill_runtime.Base.{Bytes, codes, eqb, if◌then◌else◌}
use agenthub_skill_runtime.Base.Assoc
use agenthub_skill_runtime.Base.Assoc.{Assoc, lookup, insert, keys, distinct, mem_key}
use agenthub_skill_runtime.Executor.Errors.{Result, ok, err, leaf, quote}
use agenthub_skill_runtime.Executor.Types.{ToolExecutor}

pub record Registry : Type 0 where
  pub executors : Assoc ToolExecutor

unfoldable pub new_registry : Registry
new_registry = record { executors = [] }

unfoldable pub register : ToolExecutor → Registry → Registry
register e r = record { executors = insert e.tool_type e r.executors }

unfoldable pub get : Registry → Bytes → Result ToolExecutor
get r tool_type = elim (lookup tool_type r.executors) [
  | none ↦ err (leaf (codes "executor: no executor registered for type " ++ quote tool_type))
  | some e ↦ ok e
]

unfoldable pub types : Registry → List Bytes
types r = keys r.executors

-- A lookup after a registration gives the new executor for its own type and what was there before
-- for any other; no type is listed twice if none was; and a type is listed exactly when a lookup
-- of it succeeds.
pub get-register :
    (r : Registry) (e : ToolExecutor) (t : Bytes)
    → distinct (types r) ≡ true
    → (get (register e r) t ≡ (if eqb e.tool_type t then ok e else get r t))
      × (distinct (types (register e r)) ≡ true)
      × ((mem_key t (types (register e r)) ≡ true)
          ↔ ((x : ToolExecutor) × (get (register e r) t ≡ ok x)))
unfolding get register types
get-register r e t h = (
  ground (arith, Assoc.lookup-insert e.tool_type t e r.executors),
  Assoc.distinct-insert e.tool_type e r.executors h,
  iff (insert e.tool_type e r.executors),
)
  where
    listed :
        (m : Assoc ToolExecutor)
        → (v : ToolExecutor) × (lookup t m ≡ some v)
        → (x : ToolExecutor) × (get (record { executors = m }) t ≡ ok x)
    listed m (v, p) = (v, ground arith)

    found :
        (m : Assoc ToolExecutor)
        → (x : ToolExecutor) × (get (record { executors = m }) t ≡ ok x)
        → (v : ToolExecutor) × (lookup t m ≡ some v)
    found m (x, p) = (x, ground arith)

    iff :
        (m : Assoc ToolExecutor)
        → (mem_key t (keys m) ≡ true)
          ↔ ((x : ToolExecutor) × (get (record { executors = m }) t ≡ ok x))
    iff m =
        (λ p. listed m ((Assoc.mem_key_iff t m).0 p), λ p. (Assoc.mem_key_iff t m).1 (found m p))
