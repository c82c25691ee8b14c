-- ===== src/Server.antt =====
-- internal/server/routes.go. The router's parameters and the decoded body of a request are fields of
-- it; what is written to the client is the status and the JSON object.
pub mod Body
pub mod Attempts
pub mod Status
mod Tests
use agenthub_skill_runtime.Base.{
  ℕ, zero, Bool, true, false, not, ◌&&◌, ◌||◌, List, [], ◌∷◌, ◌++◌, Option, none, some, Bytes,
  codes, is_empty, has_prefix, has_suffix, if◌then◌else◌,
}
use agenthub_skill_runtime.Base.Int.{pos}
use agenthub_skill_runtime.Executor.{
  Value, null, int, str, obj, Object, empty, entry, field?, as_object, Error, leaf, message,
  is_circuit_open, Result, ok, err, ExecutionContext, ToolResult, ToolExecutor, Registry, get,
}
use agenthub_skill_runtime.Executor.Resolver.{Tool, Pool, resolve_skill, resolve_tool}
use agenthub_skill_runtime.Invoker.{Environment, environment, default_config, invoke}

-- What the handlers read of a request: the path, the body as a map or the decoder's error, and the
-- tenant and the token that Auth has put into the context.
pub record HttpRequest : Type 0 where
  pub path : Bytes
  pub decoded : Result Object
  pub tenant_id : Bytes
  pub raw_token : Bytes

pub record HttpResponse : Type 0 where
  pub status : ℕ
  pub body : Object

-- isDirectToolExecuteRequest
unfoldable pub is_direct_tool_execute_request : Bytes → Bool
is_direct_tool_execute_request path =
    has_prefix path (codes "/api/tools/") && has_suffix path (codes "/execute")

abbrev pub is_given {ℓ} : {A : Type ℓ} → Option A → Bool
is_given none = false
is_given (some a) = true

abbrev pub has_tenant_id : Option Object → Bool
has_tenant_id none = false
has_tenant_id (some context) = is_given (field? context (codes "tenantId"))

-- hasRunnerExecuteContext, of raw["context"]
unfoldable pub has_runner_execute_context : Option Value → Bool
has_runner_execute_context value = has_tenant_id (as_object value)

abbrev pub input_map : Value → Result Object
input_map null = ok empty
input_map (obj o) = ok o
input_map _ = err (leaf (codes "input must be an object"))

abbrev pub unwrapped : Object → Option Value → Bool → Result Object
unwrapped raw none from_runner = ok raw
unwrapped raw (some input) false = ok raw
unwrapped raw (some input) true = input_map input

abbrev pub parse_raw : Bytes → Result Object → Result Object
parse_raw path (err e) = err e
parse_raw path (ok raw) =
    if is_direct_tool_execute_request path
    then ok raw
    else unwrapped raw (field? raw (codes "input"))
        (has_runner_execute_context (field? raw (codes "context")))

-- parseExecuteBody
unfoldable pub parse_execute_body : HttpRequest → Result Object
parse_execute_body r = parse_raw r.path r.decoded

abbrev pub write_error : ℕ → Bytes → HttpResponse
write_error status msg = record { status = status; body = entry (codes "error") (str msg) empty }

-- A map as a value: nil is null.
abbrev pub output_value : Option Object → Value
output_value none = null
output_value (some o) = obj o

abbrev pub write_output : ToolResult → HttpResponse
write_output r = record {
  status = 200;
  body =
      entry (codes "latencyMs") (int (pos r.latency_ms))
        (entry (codes "output") (output_value r.output) empty);
}

-- The server, json.Unmarshal of a configuration, and the world of one request: the ends of the
-- waits and the clock of its invoker.
pub record Server : Type 0 where
  pub registry : Registry
  pub resolver : Pool
  pub unmarshal : Bytes → Result Object
  pub cancelled : ℕ → Option Bytes
  pub elapsed : ℕ → ℕ

-- The error branch behind Invoke.
abbrev pub write_invoke_error : Error → HttpResponse
write_invoke_error e =
    if is_circuit_open e
    then write_error 503 (codes "tool temporarily unavailable")
    else write_error 500 (message e)

abbrev pub write_result : Result ToolResult → HttpResponse
write_result (ok r) = write_output r
write_result (err e) = write_invoke_error e

unfoldable pub tool_config : Server → Tool → Result Object
tool_config s tool = if is_empty tool.config then ok empty else s.unmarshal tool.config

abbrev pub execution_context : HttpRequest → Tool → Bytes → Object → Object → ExecutionContext
execution_context r tool skill_slug input config = record {
  tool_id = tool.id;
  skill_slug = skill_slug;
  tenant_id = r.tenant_id;
  caller_token = r.raw_token;
  input = input;
  config = config;
}

-- invoker.New(exec, DefaultConfig()) has no failures, and Invoke is called once.
unfoldable pub invoke_once : Server → ToolExecutor → ExecutionContext → Result ToolResult
invoke_once s exec ec = (invoke default_config (environment exec ec s.cancelled s.elapsed) 0).result

-- executeTool behind the lookup of the executor
abbrev pub run_tool :
    Server → HttpRequest → Tool → Bytes → Object → ToolExecutor → Result Object → HttpResponse
run_tool s r tool skill_slug input exec (err e) =
    write_error 500 (codes "invalid tool configuration")
run_tool s r tool skill_slug input exec (ok config) =
    write_result (invoke_once s exec (execution_context r tool skill_slug input config))

abbrev pub with_executor :
    Server → HttpRequest → Tool → Bytes → Object → Result ToolExecutor → HttpResponse
with_executor s r tool skill_slug input (err e) =
    write_error 422 (codes "unsupported tool type: " ++ tool.tool_type)
with_executor s r tool skill_slug input (ok exec) =
    run_tool s r tool skill_slug input exec (tool_config s tool)

-- executeTool
unfoldable pub execute_tool : Server → HttpRequest → Tool → Bytes → Object → HttpResponse
execute_tool s r tool skill_slug input =
    with_executor s r tool skill_slug input (get s.registry tool.tool_type)

abbrev pub with_tool : Server → HttpRequest → Bytes → Bytes → Object → Result Tool → HttpResponse
with_tool s r missing skill_slug input (err e) = write_error 404 missing
with_tool s r missing skill_slug input (ok tool) = execute_tool s r tool skill_slug input

abbrev pub with_input : Result Object → (Object → HttpResponse) → HttpResponse
with_input (err e) handle = write_error 400 (codes "invalid request body")
with_input (ok input) handle = handle input

-- handleExecuteSkill
unfoldable pub handle_execute_skill : Server → HttpRequest → Bytes → HttpResponse
handle_execute_skill s r skill_slug = with_input (parse_execute_body r) λ input.
    with_tool s r (codes "skill not found") skill_slug input
      (resolve_skill s.resolver r.tenant_id skill_slug)

-- handleExecuteTool
unfoldable pub handle_execute_tool : Server → HttpRequest → Bytes → HttpResponse
handle_execute_tool s r tool_id = with_input (parse_execute_body r) λ input.
    with_tool s r (codes "tool not found") [] input (resolve_tool s.resolver r.tenant_id tool_id)
