-- ===== src/Server/Attempts.antt =====
-- The one call of the invoker that a request makes.
use agenthub_skill_runtime.Base.{ℕ, ◌≡◌, refl, false, arith}
use agenthub_skill_runtime.Executor.{
  Error, is_circuit_open, ok, err, ExecutionContext, ToolResult, ToolExecutor,
}
use agenthub_skill_runtime.Invoker.{environment, default_config, invoke, exhausted}
use agenthub_skill_runtime.Invoker.Ends.{Ends, success, refusal, interruption, exhaustion}
use agenthub_skill_runtime.Invoker.Spec.{invoke-Ends}
use agenthub_skill_runtime.Server.{Server, invoke_once}

module _ (s : Server) (exec : ToolExecutor) (ec : ExecutionContext) where
  -- What the executor's own errors are not: the invoker's sentinel.
  abbrev pub HasOwnErrors : Type 0
  HasOwnErrors = (k : ℕ) (e : Error) → exec.execute ec k ≡ err e → is_circuit_open e ≡ false

  ended-not_open :
      (k : ℕ) (e : Error)
      → HasOwnErrors
      → Ends default_config
          (environment exec ec s.cancelled s.elapsed)
          0
          k
          k
          0
          (invoke default_config (environment exec ec s.cancelled s.elapsed) 0)
      → invoke_once s exec ec ≡ err e
      → is_circuit_open e ≡ false
  unfolding invoke_once is_circuit_open exhausted
  ended-not_open k e own (success r p q) h = ground arith
  ended-not_open k e own (refusal x p stop q) h = ground (arith, own k x p)
  ended-not_open k e own (interruption x m l p go w q) h = ground arith
  ended-not_open k e own (exhaustion x l p go q) h = ground (arith, own k x p)

  pub invoke_once-not_open :
      (e : Error) → HasOwnErrors → invoke_once s exec ec ≡ err e → is_circuit_open e ≡ false
  invoke_once-not_open e own h =
      let (k, fits, before, ends) =
        invoke-Ends default_config (environment exec ec s.cancelled s.elapsed) 0 refl in
      ended-not_open k e own ends h

  -- The attempt that had the result.
  ended-run :
      (k : ℕ) (r : ToolResult)
      → Ends default_config
          (environment exec ec s.cancelled s.elapsed)
          0
          k
          k
          0
          (invoke default_config (environment exec ec s.cancelled s.elapsed) 0)
      → invoke_once s exec ec ≡ ok r
      → (x : ToolResult) × (exec.execute ec k ≡ ok x) × (r ≡ record x { latency_ms = s.elapsed k })
  unfolding invoke_once exhausted
  ended-run k r (success x p q) h = (x, p, ground arith)
  ended-run k r (refusal e p stop q) h = absurd (ground arith)
  ended-run k r (interruption e m l p go w q) h = absurd (ground arith)
  ended-run k r (exhaustion e l p go q) h = absurd (ground arith)

  pub invoke_once-run :
      (r : ToolResult)
      → invoke_once s exec ec ≡ ok r
      → (k : ℕ) × (x : ToolResult) × (exec.execute ec k ≡ ok x)
        × (r ≡ record x { latency_ms = s.elapsed k })
  invoke_once-run r h =
      let (k, fits, before, ends) =
        invoke-Ends default_config (environment exec ec s.cancelled s.elapsed) 0 refl in
      let (x, ran, same) = ended-run k r ends h in (k, x, ran, same)
