-- ===== src/Server/Status.antt =====
-- The response of the two handlers.
use mathlib.Core.Path.{subst}
use agenthub_skill_runtime.Base.{◌≡◌, sym, ◌++◌, inl, inr, [], Bytes, codes, arith}
use agenthub_skill_runtime.Executor.{
  Object, Error, message, Result, ok, err, Result-cases, ExecutionContext, ToolResult, ToolExecutor,
  get,
}
use agenthub_skill_runtime.Executor.Resolver.{Tool, resolve_skill, resolve_tool}
use agenthub_skill_runtime.Server.Attempts.{HasOwnErrors, invoke_once-not_open}
use agenthub_skill_runtime.Server.{
  HttpRequest, HttpResponse, Server, parse_execute_body, tool_config, execution_context,
  invoke_once, with_input, with_tool, execute_tool, handle_execute_skill, handle_execute_tool,
  write_output, write_error,
}

module _ (s : Server) (r : HttpRequest) (tool : Tool) (skill_slug : Bytes) (input : Object) where
  -- The response of executeTool on each of its branches.
  pub data Response : HttpResponse → Type 0 where
    unsupported :
        (e : Error)
        → get s.registry tool.tool_type ≡ err e
        → Response (write_error 422 (codes "unsupported tool type: " ++ tool.tool_type))
    misconfigured :
        (e : Error)
        → tool_config s tool ≡ err e
        → Response (write_error 500 (codes "invalid tool configuration"))
    succeeded_with :
        (exec : ToolExecutor) (config : Object) (result : ToolResult)
        → get s.registry tool.tool_type ≡ ok exec
        → tool_config s tool ≡ ok config
        → invoke_once s exec (execution_context r tool skill_slug input config) ≡ ok result
        → Response (write_output result)
    failed_with :
        (exec : ToolExecutor) (config : Object) (e : Error)
        → get s.registry tool.tool_type ≡ ok exec
        → tool_config s tool ≡ ok config
        → invoke_once s exec (execution_context r tool skill_slug input config) ≡ err e
        → Response (write_error 500 (message e))

  -- If no registered executor returns the invoker's own sentinel, then a tool's execution is answered
  -- by 422 for an unregistered type, 500 for a configuration that does not decode, 200 with the
  -- output and the latency of the invoker's result, or 500 with its error. The answer 503 for an
  -- open breaker is not among them: each request has an invoker of its own.
  pub execute_tool-Response :
      ((exec : ToolExecutor) (ec : ExecutionContext)
        → get s.registry tool.tool_type ≡ ok exec
        → HasOwnErrors s exec ec)
      → Response (execute_tool s r tool skill_slug input)
  execute_tool-Response own = elim (Result-cases (get s.registry tool.tool_type)) [
    | inr (e, none_found) ↦ at (unsupported e none_found) (unfold execute_tool in rw none_found)
    | inl (exec, found) ↦ elim (Result-cases (tool_config s tool)) [
      | inr (e, bad) ↦ at (misconfigured e bad) (unfold execute_tool in rw (found, bad))
      | inl (config, good) ↦
          let ec = execution_context r tool skill_slug input config in
          elim (Result-cases (invoke_once s exec ec)) [
            | inl (result, done) ↦
                at (succeeded_with exec config result found good done)
                  (unfold execute_tool in rw (found, good, done))
            | inr (e, failed) ↦
                let closed = invoke_once-not_open s exec ec e (own exec ec found) failed in
                at (failed_with exec config e found good failed)
                  (unfold execute_tool in rw (found, good, failed, closed))
          ]
    ]
  ]
    where
      at :
          {response : HttpResponse}
          → Response response
          → execute_tool s r tool skill_slug input ≡ response
          → Response (execute_tool s r tool skill_slug input)
      at p e = subst Response (sym e) p

-- A request that was answered by 200: its input, its tool, and the one call of the tool's executor.
pub record Served (s : Server) (r : HttpRequest) (skill_slug : Bytes) (found : Result Tool)
    (response : HttpResponse) : Type 0 where
  pub input : Object
  pub tool : Tool
  pub exec : ToolExecutor
  pub config : Object
  pub result : ToolResult
  pub parsed : parse_execute_body r ≡ ok input
  pub resolved : found ≡ ok tool
  pub registered : get s.registry tool.tool_type ≡ ok exec
  pub configured : tool_config s tool ≡ ok config
  pub done : invoke_once s exec (execution_context r tool skill_slug input config) ≡ ok result
  pub answer : response ≡ write_output result

module _ (s : Server) (r : HttpRequest) where
  served :
      (missing skill_slug : Bytes) (found : Result Tool)
      → (with_input
          (parse_execute_body r)
          λ input. with_tool s r missing skill_slug input found).status
        ≡ 200
      → Served s r skill_slug found
          (with_input (parse_execute_body r) λ input. with_tool s r missing skill_slug input found)
  unfolding execute_tool
  served missing skill_slug found h = elim (Result-cases (parse_execute_body r)) [
    | inr (e, q) ↦ absurd (ground arith)
    | inl (input, q) ↦ elim (Result-cases found) [
      | inr (e, q2) ↦ absurd (ground arith)
      | inl (tool, q2) ↦ elim (Result-cases (get s.registry tool.tool_type)) [
        | inr (e, q3) ↦ absurd (ground arith)
        | inl (exec, q3) ↦ elim (Result-cases (tool_config s tool)) [
          | inr (e, q4) ↦ absurd (ground arith)
          | inl (config, q4) ↦
              elim (Result-cases
                (invoke_once s exec (execution_context r tool skill_slug input config))) [
                  | inr (e, q5) ↦ absurd (ground arith)
                  | inl (result, q5) ↦ record {
                    input = input;
                    tool = tool;
                    exec = exec;
                    config = config;
                    result = result;
                    parsed = q;
                    resolved = q2;
                    registered = q3;
                    configured = q4;
                    done = q5;
                    answer = ground arith;
                  }
                ]
        ]
      ]
    ]
  ]

  -- A skill's execution is answered by 200 only if the body has an input, the slug resolves in the
  -- tenant of the token, and the registered executor, called with that tenant, the caller's token and
  -- the tool's configuration, has a result; its output and latency are the body of the answer.
  pub handle_execute_skill-Served :
      (skill_slug : Bytes)
      → (handle_execute_skill s r skill_slug).status ≡ 200
      → Served s r skill_slug
          (resolve_skill s.resolver r.tenant_id skill_slug)
          (handle_execute_skill s r skill_slug)
  unfolding handle_execute_skill
  handle_execute_skill-Served skill_slug h =
      served (codes "skill not found") skill_slug (resolve_skill s.resolver r.tenant_id skill_slug)
        h

  -- A tool's execution by its id is answered by 200 only if the body has an input, the id names a
  -- tool of the tenant of the token, and the registered executor, called with that tenant, the
  -- caller's token, an empty slug and the tool's configuration, has a result; its output and
  -- latency are the body of the answer.
  pub handle_execute_tool-Served :
      (tool_id : Bytes)
      → (handle_execute_tool s r tool_id).status ≡ 200
      → Served s r []
          (resolve_tool s.resolver r.tenant_id tool_id)
          (handle_execute_tool s r tool_id)
  unfolding handle_execute_tool
  handle_execute_tool-Served tool_id h =
      served (codes "tool not found") [] (resolve_tool s.resolver r.tenant_id tool_id) h
