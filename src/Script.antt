-- ===== src/Script.antt =====
-- internal/executor/script/executor.go. The JavaScript engine goja is a parameter: what a program
-- makes of its input within a time, and the calls of console.log on the way.
pub mod Limits
mod Tests
use agenthub_skill_runtime.Base.{
  ℕ, Bool, true, false, not, List, [], ◌∷◌, ◌++◌, Option, none, some, Bytes, codes, is_empty,
  if◌then◌else◌,
}
use agenthub_skill_runtime.Base.Int.{ℤ, is_positive, magnitude}
use agenthub_skill_runtime.Executor.{
  Value, str, Object, empty, entry, field?, as_string, as_int, Error, leaf, Result, ok, err, ◌>>=◌,
  ◌>>◌, require, or_wrap, prefixed, ExecutionContext, ToolResult,
}

-- vm.Set("input", input), and vm.RunString with the milliseconds behind which it is interrupted; the
-- arguments of a call of console.log as their texts.
pub record Engine : Type 0 where
  pub set_input : Object → Option Error
  pub run_string : Bytes → ℕ → Object → Result Value × List (List Bytes)

abbrev pub default_timeout_ms : ℕ
default_timeout_ms = 5000

abbrev pub text_of : Option Bytes → Bytes
text_of none = []
text_of (some s) = s

abbrev pub positive_or_default : Option ℤ → ℕ
positive_or_default none = default_timeout_ms
positive_or_default (some ms) = if is_positive ms then magnitude ms else default_timeout_ms

-- timeoutMS
unfoldable pub timeout_ms : Object → ℕ
timeout_ms config = positive_or_default (as_int (field? config (codes "timeout_ms")))

-- One call of console.log: the arguments with a space between them, and a line feed.
unfoldable pub log_line : List Bytes → Bytes
log_line [] = 10 ∷ []
log_line (s ∷ []) = s ++ (10 ∷ [])
log_line (s ∷ t ∷ more) = s ++ (32 ∷ log_line (t ∷ more))

-- The buffer behind all calls.
unfoldable pub log_text : List (List Bytes) → Bytes
unfolding log_line
log_text [] = []
log_text (call ∷ calls) = log_line call ++ log_text calls

abbrev pub with_logs : Bytes → Value → Object
with_logs [] value = entry (codes "result") value empty
with_logs (c ∷ s) value = entry (codes "logs") (str (c ∷ s)) (entry (codes "result") value empty)

abbrev pub set_or_fail : Option Error → Result (Unit {0})
set_or_fail none = ok tt
set_or_fail (some e) = err (prefixed (codes "script executor: set input: ") e)

abbrev pub result_of : Result Value × List (List Bytes) → Result ToolResult
result_of (err e, calls) = err (prefixed (codes "script executor: runtime error: ") e)
result_of (ok value, calls) =
    ok (record { output = some (with_logs (log_text calls) value); error = []; latency_ms = 0 })

unfoldable pub execute : Engine → ExecutionContext → Result ToolResult
unfolding timeout_ms
execute engine ec =
    let source = text_of (as_string (field? ec.config (codes "script"))) in
    require (not (is_empty source)) (leaf (codes "script executor: script is required"))
    >> (set_or_fail (engine.set_input ec.input)
        >> result_of (engine.run_string source (timeout_ms ec.config) ec.input))
