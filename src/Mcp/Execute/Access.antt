-- ===== src/Mcp/Execute/Access.antt =====
-- Which server's configuration a tool of an MCP server is called with.
use agenthub_skill_runtime.Base.{◌≡◌, ◌↔◌, inl, inr, false, List, Bytes, is_empty, arith}
use agenthub_skill_runtime.Executor.{Result, ok, Result-cases, ExecutionContext, ToolResult}
use agenthub_skill_runtime.Executor.Resolver.{tenant_schema}
use agenthub_skill_runtime.Http.Ssrf.{Syntax}
use agenthub_skill_runtime.Mcp.ServerConfig.{
  McpServerConfig, Columns, ServerRow, find_server, server_of, fetch_server_config,
}
use agenthub_skill_runtime.Mcp.Execute.{
  McpToolConfig, parse_mcp_tool_config, McpToolExecutor, dispatch, execute,
}

fetch_server_config-ok :
    (pool : Bytes → Result (List ServerRow)) (tenant_id id : Bytes) (server : McpServerConfig)
    → fetch_server_config pool tenant_id id ≡ ok server
    → (rows : List ServerRow) × (columns : Columns) × (pool (tenant_schema tenant_id) ≡ ok rows)
      × (find_server id rows ≡ ok columns)
      × (server_of columns ≡ ok server)
unfolding fetch_server_config
fetch_server_config-ok pool tenant_id id server h =
    elim (Result-cases (pool (tenant_schema tenant_id))) [
      | inr (e, q) ↦ absurd (ground arith)
      | inl (rows, q) ↦ elim (Result-cases (find_server id rows)) [
        | inr (e, q1) ↦ absurd (ground arith)
        | inl (columns, q1) ↦ (rows, columns, q, q1, ground arith)
      ]
    ]

module _ (syn : Syntax) (e : McpToolExecutor) (ec : ExecutionContext) where
  -- The server that was called, and by which row.
  pub record Called (r : ToolResult) : Type 0 where
    pub cfg : McpToolConfig
    pub rows : List ServerRow
    pub columns : Columns
    pub server : McpServerConfig
    pub parsed : parse_mcp_tool_config ec.config ≡ ok cfg
    pub named : is_empty cfg.mcp_server_config_id ≡ false
    pub asked : is_empty cfg.tool_name ≡ false
    pub table : e.pool (tenant_schema ec.tenant_id) ≡ ok rows
    pub found : find_server cfg.mcp_server_config_id rows ≡ ok columns
    pub decoded : server_of columns ≡ ok server
    pub done : dispatch syn e server cfg.tool_name ec.input ≡ ok r

  execute→Called : (r : ToolResult) → execute syn e ec ≡ ok r → Called r
  unfolding execute
  execute→Called r h = elim (Result-cases (parse_mcp_tool_config ec.config)) [
    | inr (reason, q) ↦ absurd (ground arith)
    | inl (cfg, q) ↦
        elim (Result-cases (fetch_server_config e.pool ec.tenant_id cfg.mcp_server_config_id)) [
          | inr (reason, q1) ↦ absurd (ground arith)
          | inl (server, q1) ↦
              let (rows, columns, table, found, decoded) =
                fetch_server_config-ok e.pool ec.tenant_id cfg.mcp_server_config_id server q1 in
              record {
                cfg = cfg;
                rows = rows;
                columns = columns;
                server = server;
                parsed = q;
                named = ground arith;
                asked = ground arith;
                table = table;
                found = found;
                decoded = decoded;
                done = ground arith;
              }
        ]
  ]

  Called→execute : (r : ToolResult) → Called r → execute syn e ec ≡ ok r
  unfolding execute fetch_server_config
  Called→execute r w = rw (w.parsed, w.named, w.asked, w.table, w.found, w.decoded) w.done

  -- A tool of an MCP server has a result exactly if its configuration parses and names a server and a
  -- tool, the table mcp_server_config of the tenant's own schema has a row with that id whose columns
  -- can be read and whose args and env decode, and the call by that row's transport has that result.
  pub execute-Called : (r : ToolResult) → (execute syn e ec ≡ ok r) ↔ Called r
  execute-Called r = (execute→Called r, Called→execute r)
