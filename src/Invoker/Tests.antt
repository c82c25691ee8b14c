-- ===== src/Invoker/Tests.antt =====
-- The invoker at concrete environments.
use agenthub_skill_runtime.Base.{
  some, ℕ, zero, suc, ◌+◌, ◌*◌, ◌≤◌, ◌<◌, ◌≡◌, refl, ◌↔◌, [], ◌∷◌, none, codes, arith,
}
use agenthub_skill_runtime.Executor.{leaf, empty, Result, ok, err, ToolResult}
use agenthub_skill_runtime.Invoker.{Config, Environment, default_config, invoke}
use agenthub_skill_runtime.Invoker.Ends.{IsTransient, Ends}
use agenthub_skill_runtime.Invoker.Spec.{invoke-Ends}
use agenthub_skill_runtime.Invoker.Breaker.{
  calls, calls-invoke, invoke_all, rejected, breaker_stays_open,
}

abbrev answer : ToolResult
answer = record { output = some empty; error = []; latency_ms = 0 }

abbrev flaky_execute : ℕ → Result ToolResult
flaky_execute zero = err (leaf (codes "timeout"))
flaky_execute (suc k) = ok answer

-- The first attempt fails, the next succeeds.
abbrev flaky : Environment
flaky = record { execute = flaky_execute; cancelled = λ k. none; elapsed = λ k. 7 * k }

abbrev down : Environment
down = record {
  execute = λ k. err (leaf (codes "connection refused"));
  cancelled = λ k. none;
  elapsed = λ k. k;
}

abbrev strict : Config
strict = record default_config { max_retries = 0; circuit_breaker_threshold = 1 }

invoke-Ends_example :
    (k : ℕ) × (k ≤ 2)
    × ((j : ℕ) → j < k → IsTransient default_config flaky j)
    × Ends default_config flaky 0 k k 0 (invoke default_config flaky 0)
invoke-Ends_example = invoke-Ends default_config flaky 0 refl

calls-invoke_example :
    (calls (invoke default_config flaky 5).actions ≤ 2 + 1)
    × ((calls (invoke default_config flaky 5).actions ≡ 0) ↔ ((0 < 5) × (5 ≤ 5)))
calls-invoke_example = calls-invoke default_config flaky 5

breaker_stays_open_example :
    invoke strict flaky (invoke_all strict (flaky ∷ []) (invoke_all strict (down ∷ []) 0))
    ≡ rejected 1
breaker_stays_open_example =
    breaker_stays_open strict (down ∷ []) (flaky ∷ []) flaky (omega arith)
      ((λ k h. ((leaf (codes "connection refused"), refl), refl)), tt) refl
