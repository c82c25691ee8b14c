-- ===== src/Script/Limits.antt =====
-- What a script run returns, and how long it may take.
use agenthub_skill_runtime.Base.{
  ◌≡◌, ◌≢◌, refl, ◌↔◌, inl, inr, List, [], none, some, Bytes, codes, eqb, arith, Bool-cases,
}
use agenthub_skill_runtime.Executor.{
  Value, Object, empty, entry, field?, as_string, as_int, Result, ok, err, ExecutionContext,
  ToolResult,
}
use agenthub_skill_runtime.Script.{
  Engine, default_timeout_ms, text_of, timeout_ms, log_text, with_logs, result_of, execute,
}

-- No value of the object is a Go int. Those that encoding/json decodes are not: its numbers are
-- float64.
abbrev pub IsDecoded : Object → Type 0
IsDecoded empty = Unit
IsDecoded (entry k v o) = (as_int (some v) ≡ none) × IsDecoded o

no_int : (o : Object) (k : Bytes) → IsDecoded o → as_int (field? o k) ≡ none
unfolding field? as_int
no_int empty k h = refl
no_int (entry j v o) k (h, hs) = elim (Bool-cases (eqb j k)) [
  | inl same ↦ rw (same, field?) h
  | inr other ↦ rw (other, field?) (no_int o k hs)
]

-- A script whose configuration was decoded from JSON always has the default time of 5000 ms: two
-- configurations with the same script have the same outcome, whatever their timeout_ms is.
pub execute_timeout :
    (engine : Engine) (ec : ExecutionContext) (other : Object)
    → IsDecoded ec.config
    → IsDecoded other
    → as_string (field? ec.config (codes "script")) ≡ as_string (field? other (codes "script"))
    → (timeout_ms ec.config ≡ default_timeout_ms)
      × (execute engine ec ≡ execute engine (record ec { config = other }))
unfolding execute timeout_ms
execute_timeout engine ec other h k same =
    let a = no_int ec.config (codes "timeout_ms") h in
    let b = no_int other (codes "timeout_ms") k in (rw a refl, rw (same, a, b) refl)

abbrev pub source : ExecutionContext → Bytes
source ec = text_of (as_string (field? ec.config (codes "script")))

abbrev pub HasValue : Result Value × List (List Bytes) → ToolResult → Type 0
HasValue run r =
    (value : Value) × (calls : List (List Bytes)) × (run ≡ (ok value, calls))
    × (r ≡ record { output = some (with_logs (log_text calls) value); error = []; latency_ms = 0 })

result_of-HasValue :
    (run : Result Value × List (List Bytes)) (r : ToolResult)
    → result_of run ≡ ok r
    → HasValue run r
result_of-HasValue (ok value, calls) r h = (value, calls, refl, ground arith)
result_of-HasValue (err e, calls) r h = absurd (ground arith)

-- A run succeeds exactly if there is a script, the engine takes the input and the script ends within
-- its time with a value; the output is that value and, if anything was logged, the lines of the log.
pub execute_iff :
    (engine : Engine) (ec : ExecutionContext) (r : ToolResult)
    → (execute engine ec ≡ ok r) ↔ (
        (source ec ≢ [])
        × (engine.set_input ec.input ≡ none)
        × HasValue (engine.run_string (source ec) (timeout_ms ec.config) ec.input) r)
unfolding execute
execute_iff engine ec r = (
  λ h. (
    ground (arith, h),
    ground (arith, h),
    result_of-HasValue (engine.run_string (source ec) (timeout_ms ec.config) ec.input) r
        (ground (arith, h)),
  ),
  λ (given, accepted, (value, calls, ran, e)). ground (arith, given, accepted, ran, e),
)
