-- ===== src/Script/Tests.antt =====
-- The script executor with a concrete engine.
use agenthub_skill_runtime.Base.{some, ◌≡◌, refl, [], ◌∷◌, none, codes, false, ◌++◌}
use agenthub_skill_runtime.Executor.{
  str, obj, float, Object, empty, entry, ok, ExecutionContext, ToolResult,
}
use agenthub_skill_runtime.Script.{Engine, execute}

-- An engine whose programs return their input and log one line.
abbrev engine : Engine
engine = record {
  set_input = λ o. none;
  run_string = λ src ms o. (ok (obj o), (codes "in" ∷ src ∷ []) ∷ []);
}

abbrev config : Object
config = entry (codes "script") (str (codes "input")) (
    entry (codes "timeout_ms") (float (record { negative = false; mantissa = 90000; places = 0 }))
      empty)

abbrev ec : ExecutionContext
ec = record {
  tool_id = codes "t1";
  skill_slug = [];
  tenant_id = codes "acme";
  caller_token = [];
  input = empty;
  config = config;
}

abbrev answer : ToolResult
answer = record {
  output = some (
      entry (codes "logs") (str (codes "in input" ++ (10 ∷ [])))
        (entry (codes "result") (obj empty) empty));
  error = [];
  latency_ms = 0;
}

-- The configured time is not used.
answered : execute engine ec ≡ ok answer
unfolding execute agenthub_skill_runtime.Executor.as_string agenthub_skill_runtime.Executor.field?
    agenthub_skill_runtime.Base.eqb agenthub_skill_runtime.Script.log_text
answered = refl
