-- ===== src/Executor/Types.antt =====
-- internal/executor/executor.go: ExecutionContext, Result and the ToolExecutor interface.
use mathlib.Core.Option.{Option}
use Prim.Native.Nat.{ℕ}
use agenthub_skill_runtime.Base.{Bytes}
use agenthub_skill_runtime.Executor.Json.{Object}
use agenthub_skill_runtime.Executor.Errors.{Result}

pub record ExecutionContext : Type 0 where
  pub tool_id : Bytes
  pub skill_slug : Bytes
  pub tenant_id : Bytes
  pub caller_token : Bytes
  pub input : Object
  pub config : Object

-- executor.Result
pub record ToolResult : Type 0 where
  -- none for a nil map
  pub output : Option Object
  pub error : Bytes
  pub latency_ms : ℕ

-- What an executor returns depends on the world; the world of the k-th attempt is the number k.
pub record ToolExecutor : Type 0 where
  pub tool_type : Bytes
  pub execute : ExecutionContext → ℕ → Result ToolResult
