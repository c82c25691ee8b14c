-- ===== src/Mcp/Stdio.antt =====
-- internal/executor/mcp/executor.go: executeStdio, from the started process to the result.
pub mod Handshake
use agenthub_skill_runtime.Base.{
  ℕ, Bool, true, false, not, List, [], ◌∷◌, ◌++◌, Option, none, some, Bytes, codes, is_empty,
  trim_space,
}
use agenthub_skill_runtime.Base.Assoc.{Assoc}
use agenthub_skill_runtime.Base.Decimal.{itoa}
use agenthub_skill_runtime.Executor.{
  Value, str, obj, Object, empty, entry, Error, leaf, prefixed, Result, ok, err, ◌>>=◌, ◌>>◌,
  require, or_wrap, ToolResult,
}
use agenthub_skill_runtime.Mcp.Environment.{stdio_environment}
use agenthub_skill_runtime.Mcp.Allowlist.{resolve_command}
use agenthub_skill_runtime.Mcp.ServerConfig.{McpServerConfig}
use agenthub_skill_runtime.Mcp.Protocol.{
  McpError, McpResponse, Protocol, request, notification, result_from_response,
}

abbrev pub initialize_params : Object
initialize_params = entry (codes "capabilities") (obj empty) (
    entry (codes "clientInfo")
      (obj (
        entry (codes "name") (str (codes "agenthub-skill-runtime"))
          (entry (codes "version") (str (codes "1.0.0")) empty)))
      (entry (codes "protocolVersion") (str (codes "2025-03-26")) empty))

abbrev pub call_params : Bytes → Object → Object
call_params tool_name input =
    entry (codes "arguments") (obj input) (entry (codes "name") (str tool_name) empty)

abbrev pub initialize_error : McpError → Error
initialize_error e =
    leaf (codes "mcp executor: stdio initialize error " ++ (itoa e.code ++ (codes ": " ++ e.text)))

abbrev pub called : Result McpResponse × Protocol → Result ToolResult × Protocol
called (ok response, p) = (ok (result_from_response response), p)
called (err e, p) = (err (prefixed (codes "mcp executor: stdio tools/call: ") e), p)

module _ (tool_name : Bytes) (input : Object) where
  abbrev pub call_tool : Result (Unit {0}) × Protocol → Result ToolResult × Protocol
  call_tool (err e, p) =
      (err (prefixed (codes "mcp executor: stdio initialized notification: ") e), p)
  call_tool (ok u, p) = called (request (codes "tools/call") (call_params tool_name input) p)

  abbrev pub greet : Option McpError → Protocol → Result ToolResult × Protocol
  greet (some e) p = (err (initialize_error e), p)
  greet none p = call_tool (notification (codes "notifications/initialized") empty p)

  abbrev pub initialized : Result McpResponse × Protocol → Result ToolResult × Protocol
  initialized (err e, p) = (err (prefixed (codes "mcp executor: stdio initialize: ") e), p)
  initialized (ok response, p) = greet response.error p

  -- The exchange with the child process.
  unfoldable pub converse : Protocol → Result ToolResult × Protocol
  converse p = initialized (request (codes "initialize") initialize_params p)

-- What the operating system makes of a program with arguments and an environment: the opened pipes
-- of the started process, or the error of StdinPipe, StdoutPipe or Start. The process is stopped
-- when executeStdio returns.
pub record Spawner : Type 0 where
  pub start : Bytes → List Bytes → List Bytes → Result Protocol

-- executeStdio
unfoldable pub execute_stdio :
    Spawner → McpServerConfig → Bytes → Object → Assoc Bytes → Result ToolResult
unfolding converse
execute_stdio spawner cfg tool_name input allowlist = do
  require (not (is_empty (trim_space cfg.command)))
      (leaf (codes "mcp executor: command is required for stdio transport"))
  command ←
      or_wrap (codes "mcp executor: stdio command rejected: ")
        (resolve_command cfg.command allowlist)
  environment ←
      or_wrap (codes "mcp executor: invalid stdio environment: ") (stdio_environment cfg.env)
  protocol ← spawner.start command cfg.args environment
  (converse tool_name input protocol).0
