-- ===== src/Mcp/Execute.antt =====
-- internal/executor/mcp/executor.go: MCPToolExecutor.Execute and executeHTTP.
pub mod Transport
pub mod Access
use agenthub_skill_runtime.Base.{
  ℕ, Bool, true, false, not, List, [], ◌∷◌, ◌++◌, Option, none, some, Bytes, codes, is_empty, eqb,
  trim_right_slash, ◌==◌, if◌then◌else◌,
}
use agenthub_skill_runtime.Base.Assoc.{Assoc}
use agenthub_skill_runtime.Base.Decimal.{itoa}
use agenthub_skill_runtime.Executor.{
  Object, Error, leaf, prefixed, wrap, quote, Result, ok, err, ◌>>=◌, ◌>>◌, require, or_wrap,
  ToolResult, ExecutionContext, string_field, decode_field,
}
use agenthub_skill_runtime.Http.Ssrf.{Syntax, validate_url}
use agenthub_skill_runtime.Mcp.Protocol.{McpRequest, McpResponse, result_from_response}
use agenthub_skill_runtime.Mcp.ServerConfig.{McpServerConfig, ServerRow, fetch_server_config}
use agenthub_skill_runtime.Mcp.Stdio.{Spawner, call_params, execute_stdio}

-- mcpToolConfig
pub record McpToolConfig : Type 0 where
  pub mcp_server_config_id : Bytes
  pub tool_name : Bytes

unfoldable pub parse_mcp_tool_config : Object → Result McpToolConfig
unfolding decode_field
parse_mcp_tool_config raw = or_wrap (codes "unmarshal config: ") do
  id ← string_field (codes "mcp_server_config_id") raw
  tool_name ← string_field (codes "tool_name") raw
  ok (record { mcp_server_config_id = id; tool_name = tool_name })

-- The protected HTTP client: a POST of a request to an endpoint gives a status and a body, or an
-- error; json.Unmarshal of a body.
pub record HttpClient : Type 0 where
  pub post : Bytes → McpRequest → Result (ℕ × Result Bytes)
  pub decode : Bytes → Result McpResponse

pub record McpToolExecutor : Type 0 where
  -- the table mcp_server_config of a schema by its name
  pub pool : Bytes → Result (List ServerRow)
  pub allowlist : Result (Assoc Bytes)
  pub spawner : Spawner
  pub client : HttpClient

-- executeHTTP
unfoldable pub execute_http :
    Syntax → HttpClient → McpServerConfig → Bytes → Object → Result ToolResult
execute_http syn client cfg tool_name input = do
  require (not (is_empty cfg.http_base_url))
      (leaf (codes "mcp executor: http_base_url is required for http transport"))
  let endpoint = trim_right_slash cfg.http_base_url ++ codes "/mcp"
  or_wrap (codes "mcp executor: blocked HTTP endpoint: ") (validate_url syn endpoint)
  resp ← or_wrap (codes "mcp executor: HTTP request failed: ") (
      client.post endpoint
        (record { id = 1; method = codes "tools/call"; params = call_params tool_name input }))
  raw_body ← or_wrap (codes "mcp executor: read response body: ") resp.1
  require (resp.0 == 200)
      (leaf (codes "mcp executor: server returned " ++ (itoa resp.0 ++ (codes ": " ++ raw_body))))
  response ← or_wrap (codes "mcp executor: decode response: ") (client.decode raw_body)
  ok (result_from_response response)

-- The choice of the transport.
unfoldable pub dispatch :
    Syntax → McpToolExecutor → McpServerConfig → Bytes → Object → Result ToolResult
dispatch syn e cfg tool_name input =
    if eqb cfg.transport_type (codes "stdio")
    then (or_wrap (codes "mcp executor: invalid MCP_STDIO_ALLOWED_COMMANDS: ") e.allowlist
        >>= λ allowlist. execute_stdio e.spawner cfg tool_name input allowlist)
    else if eqb cfg.transport_type (codes "http")
    then execute_http syn e.client cfg tool_name input
    else err (leaf (codes "mcp executor: unsupported transport type " ++ quote cfg.transport_type))

unfoldable pub execute : Syntax → McpToolExecutor → ExecutionContext → Result ToolResult
unfolding parse_mcp_tool_config
execute syn e ec = do
  cfg ← or_wrap (codes "mcp executor: parse config: ") (parse_mcp_tool_config ec.config)
  require (not (is_empty cfg.mcp_server_config_id))
      (leaf (codes "mcp executor: mcp_server_config_id is required"))
  require (not (is_empty cfg.tool_name)) (leaf (codes "mcp executor: tool_name is required"))
  server ←
      or_wrap (codes "mcp executor: fetch server config: ")
        (fetch_server_config e.pool ec.tenant_id cfg.mcp_server_config_id)
  dispatch syn e server cfg.tool_name ec.input
