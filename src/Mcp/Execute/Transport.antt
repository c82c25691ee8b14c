-- ===== src/Mcp/Execute/Transport.antt =====
-- What a result of the MCP executor presupposes.
use agenthub_skill_runtime.Base.{
  ℕ, ◌≡◌, ◌≢◌, refl, ◌⊎◌, inl, inr, Bool, true, false, [], ◌∷◌, ◌++◌, none, some, Bytes, codes,
  is_empty, eqb, eqb→eq, trim_right_slash, trim_space, arith, ◌==◌, Bool-cases,
}
use agenthub_skill_runtime.Base.Assoc.{Assoc}
use agenthub_skill_runtime.Executor.{Object, ok, ToolResult, Result-cases}
use agenthub_skill_runtime.Http.Ssrf.{Syntax, validate_url}
use agenthub_skill_runtime.Mcp.Protocol.{McpResponse, result_from_response}
use agenthub_skill_runtime.Mcp.Allowlist.{FileSystem, parse_allowlist, resolve_command, clean}
use agenthub_skill_runtime.Mcp.Allowlist.Safety.{
  IsListed, resolve_command-IsListed, IsVetted, resolve_command-IsVetted,
}
use agenthub_skill_runtime.Mcp.Environment.{stdio_environment}
use agenthub_skill_runtime.Mcp.ServerConfig.{McpServerConfig}
use agenthub_skill_runtime.Mcp.Stdio.{call_params, converse, execute_stdio}
use agenthub_skill_runtime.Mcp.Execute.{McpToolExecutor, execute_http, dispatch}
use agenthub_skill_runtime.Mcp.Protocol.{Protocol}

module _ (syn : Syntax) (fs : FileSystem) (raw : Bytes) (e : McpToolExecutor)
    (from_env : e.allowlist ≡ parse_allowlist fs raw) (cfg : McpServerConfig) (tool_name : Bytes)
    (input : Object) where
  -- A process was started, and its program is vetted.
  pub record Started (r : ToolResult) : Type 0 where
    pub program : Bytes
    pub environment : agenthub_skill_runtime.Base.List Bytes
    pub protocol : Protocol
    pub listed : IsListed fs raw cfg.command
    pub vetted : IsVetted fs (clean (trim_space cfg.command)) program
    pub accepted : stdio_environment cfg.env ≡ ok environment
    pub started : e.spawner.start program cfg.args environment ≡ ok protocol
    pub result : (converse tool_name input protocol).0 ≡ ok r

  execute_stdio-Started :
      (allowlist : Assoc Bytes) (r : ToolResult)
      → e.allowlist ≡ ok allowlist
      → execute_stdio e.spawner cfg tool_name input allowlist ≡ ok r
      → Started r
  unfolding execute_stdio
  execute_stdio-Started allowlist r known h =
      elim (Result-cases (resolve_command cfg.command allowlist)) [
        | inr (x, q) ↦ absurd (ground arith)
        | inl (program, q) ↦ elim (Result-cases (stdio_environment cfg.env)) [
          | inr (x, q2) ↦ absurd (ground arith)
          | inl (env, q2) ↦ elim (Result-cases (e.spawner.start program cfg.args env)) [
            | inr (x, q3) ↦ absurd (ground arith)
            | inl (protocol, q3) ↦ record {
              program = program;
              environment = env;
              protocol = protocol;
              listed =
                  resolve_command-IsListed fs raw cfg.command program allowlist (ground arith) q;
              vetted =
                  resolve_command-IsVetted fs raw cfg.command program allowlist (ground arith) q;
              accepted = q2;
              started = q3;
              result = ground arith;
            }
          ]
        ]
      ]

  -- The endpoint, below the configured base, passed the guard and answered 200 with a response.
  pub record Posted (r : ToolResult) : Type 0 where
    pub body : Bytes
    pub response : McpResponse
    pub guarded : validate_url syn (trim_right_slash cfg.http_base_url ++ codes "/mcp") ≡ ok tt
    pub answered :
        e.client.post
          (trim_right_slash cfg.http_base_url ++ codes "/mcp")
          (record { id = 1; method = codes "tools/call"; params = call_params tool_name input })
        ≡ ok (200, ok body)
    pub decoded : e.client.decode body ≡ ok response
    pub result : r ≡ result_from_response response

  execute_http-Posted :
      (r : ToolResult) → execute_http syn e.client cfg tool_name input ≡ ok r → Posted r
  unfolding execute_http
  execute_http-Posted r h =
      elim (Result-cases (
        e.client.post (trim_right_slash cfg.http_base_url ++ codes "/mcp")
          (record { id = 1; method = codes "tools/call"; params = call_params tool_name input }))) [
            | inr (x, q) ↦ absurd (ground arith)
            | inl ((status, got), q) ↦ elim (Result-cases got) [
              | inr (x, q2) ↦ absurd (ground arith)
              | inl (body, q2) ↦ elim (Result-cases (e.client.decode body)) [
                | inr (x, q3) ↦ absurd (ground arith)
                | inl (response, q3) ↦ record {
                  body = body;
                  response = response;
                  guarded = ground arith;
                  answered = ground arith;
                  decoded = q3;
                  result = ground arith;
                }
              ]
            ]
          ]

  -- If the executor's allowlist is the one read from the deployment's setting, then it has a result
  -- only if the server's transport is stdio, an item of the setting is the command but for blanks
  -- around it and the cleaning of paths, and a process was started with an accepted environment, whose
  -- program is the executable regular file that this absolute path led to when the setting was read; or
  -- the transport is http and the endpoint passed the guard against private networks and answered 200. Any
  -- other transport is an error.
  pub dispatch-ok :
      (r : ToolResult)
      → dispatch syn e cfg tool_name input ≡ ok r
      → ((cfg.transport_type ≡ codes "stdio") × Started r)
        ⊎ ((cfg.transport_type ≡ codes "http") × Posted r)
  unfolding dispatch
  dispatch-ok r h = elim (Bool-cases (eqb cfg.transport_type (codes "stdio"))) [
    | inl stdio ↦ elim (Result-cases e.allowlist) [
      | inr (x, q) ↦ absurd (ground arith)
      | inl (allowlist, q) ↦ inl (
        eqb→eq cfg.transport_type (codes "stdio") stdio,
        execute_stdio-Started allowlist r q (ground arith),
      )
    ]
    | inr other ↦ elim (Bool-cases (eqb cfg.transport_type (codes "http"))) [
      | inl http ↦
          inr (eqb→eq cfg.transport_type (codes "http") http, execute_http-Posted r (ground arith))
      | inr unknown ↦ absurd (ground arith)
    ]
  ]
