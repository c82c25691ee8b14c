-- ===== src/Mcp/Tests.antt =====
-- The MCP executor at concrete servers, sessions and addresses.
use agenthub_skill_runtime.Base.{
  ℕ, ◌+◌, ◌≡◌, ◌≢◌, refl, ◌↔◌, ◌⊎◌, Bool, true, false, List, [], ◌∷◌, ◌++◌, map, Option, none, some,
  Bytes, codes, All, has_prefix, to_upper, trim_space, eqb, if◌then◌else◌, arith,
}
use agenthub_skill_runtime.Base.Assoc.{Assoc}
use agenthub_skill_runtime.Executor.{
  str, entry, empty, Error, leaf, ok, err, ToolResult, ExecutionContext,
}
use agenthub_skill_runtime.Http.Ssrf.{Ip, v4, quad, Syntax}
use agenthub_skill_runtime.Http.Query.{sort_keys}
use agenthub_skill_runtime.Mcp.Environment.{stdio_environment}
use agenthub_skill_runtime.Mcp.Environment.Names.{IsAcceptable}
use agenthub_skill_runtime.Mcp.Environment.Safety.{assignment, stdio_environment_iff}
use agenthub_skill_runtime.Mcp.Allowlist.{clean, FileSystem, parse_allowlist, resolve_command}
use agenthub_skill_runtime.Mcp.Allowlist.Safety.{IsVetted, resolve_command-IsVetted}
use agenthub_skill_runtime.Mcp.Protocol.{McpRequest, McpResponse, Line, Ending, Protocol, request}
use agenthub_skill_runtime.Mcp.Protocol.Request.{Answered, sent, request_iff}
use agenthub_skill_runtime.Mcp.Outbound.{Net, dial_http_outbound}
use agenthub_skill_runtime.Mcp.Outbound.Pinning.{IsSafeIp, IsPinned, dial_http_outbound_iff}
use agenthub_skill_runtime.Mcp.ServerConfig.{McpServerConfig, Columns}
use agenthub_skill_runtime.Mcp.Execute.Access.{Called, execute-Called}
use agenthub_skill_runtime.Mcp.Stdio.{Spawner, converse}
use agenthub_skill_runtime.Mcp.Stdio.Handshake.{fresh, IsSession, converse-written}
use agenthub_skill_runtime.Mcp.Execute.{McpToolExecutor, dispatch, execute}
use agenthub_skill_runtime.Mcp.Execute.Transport.{Started, Posted, dispatch-ok}

abbrev variables : Assoc Bytes
variables = (codes "TOKEN", codes "t") ∷ (codes "HOME", codes "/tmp") ∷ []

stdio_environment_iff_example : (stdio_environment variables ≡ ok (codes "PATH=/bin" ∷ [])) ↔ (
    All IsAcceptable variables
    × ((codes "PATH=/bin" ∷ [])
        ≡ codes "PATH=/usr/local/sbin:/usr/local/bin:/usr/sbin:/usr/bin:/sbin:/bin"
          ∷ map assignment (sort_keys variables)))
stdio_environment_iff_example = stdio_environment_iff variables (codes "PATH=/bin" ∷ [])

-- Every path is an executable regular file and no link.
abbrev files : FileSystem
files = record { eval_symlinks = λ path. ok path; stat = λ path. ok (true, true) }

abbrev allowed : Assoc Bytes
allowed = (codes "/usr/bin/node", codes "/usr/bin/node") ∷ []

resolve_command-IsVetted_example :
    IsVetted files (clean (trim_space (codes " /usr/bin/node"))) (codes "/usr/bin/node")
unfolding parse_allowlist trim_space agenthub_skill_runtime.Base.split_byte has_prefix clean
    agenthub_skill_runtime.Base.Assoc.insert resolve_command
    agenthub_skill_runtime.Base.Assoc.lookup
resolve_command-IsVetted_example =
    resolve_command-IsVetted files (codes "/usr/bin/node") (codes " /usr/bin/node")
      (codes "/usr/bin/node") allowed refl refl

abbrev line : ℕ → Line
line id = record {
  context = none;
  decoded = ok (record { id = id; result = some empty; error = none });
}

abbrev ending : Ending
ending = record { context = none; scan = none }

abbrev never : McpRequest → Option Error
never r = none

-- A server that sends a notification before each answer.
abbrev lines : List Line
lines = line 0 ∷ line 1 ∷ line 0 ∷ line 2 ∷ []

abbrev session : Protocol
session = fresh (codes "echo") empty lines ending never

abbrev response : McpResponse
response = record { id = 1; result = some empty; error = none }

abbrev left : List Line
left = line 0 ∷ line 2 ∷ []

request_iff_example :
    (request (codes "initialize") empty session
      ≡ (ok response, record (sent (codes "initialize") empty session) { lines = left }))
    ↔ Answered 1 lines response left
request_iff_example = request_iff (codes "initialize") empty session response left refl

converse-written_example :
    IsSession
      (codes "echo")
      empty
      lines
      ending
      (converse (codes "echo") empty session).0
      (converse (codes "echo") empty session).1.written
converse-written_example = converse-written (codes "echo") empty lines ending never

abbrev address : Option Ip
address = some (v4 (quad 93 184 216 34))

abbrev net : Net
net = record {
  Conn = Option Ip;
  split_host_port = λ a. ok (a, codes "443");
  show_ip = λ ip. [];
  resolve_host = λ host. ok (address ∷ []);
  dial_ip = λ network ip port. ok ip;
}

abbrev syn : Syntax
syn = record {
  parse_url =
      λ s. ok (record { scheme = codes "https"; host = codes "mcp"; hostname = codes "mcp" });
  parse_ip = λ s. none;
}

dial_http_outbound_iff_example :
    (dial_http_outbound net syn (codes "tcp") (codes "mcp") ≡ ok address) ↔ (
      (host port : Bytes) × (ip : Option Ip) × (net.split_host_port (codes "mcp") ≡ ok (host, port))
      × IsSafeIp net syn ip
      × IsPinned net syn host ip
      × (net.dial_ip (codes "tcp") ip port ≡ ok address))
dial_http_outbound_iff_example = dial_http_outbound_iff net syn (codes "tcp") (codes "mcp") address

abbrev answer : ToolResult
answer = record { output = some empty; error = []; latency_ms = 0 }

abbrev columns : Columns
columns = record {
  transport_type = codes "stdio";
  http_base_url = none;
  command = some (codes "/usr/bin/node");
  args = none;
  env = none;
}

abbrev executor : McpToolExecutor
executor = record {
  pool = λ schema.
      if eqb schema (codes "ah_acme")
      then ok (record { id = codes "s1"; scanned = ok columns } ∷ [])
      else err (leaf []);
  allowlist = ok allowed;
  spawner = record { start = λ command args env. ok session };
  client = record { post = λ url r. err (leaf []); decode = λ body. err (leaf []) };
}

abbrev server : McpServerConfig
server = record {
  transport_type = codes "stdio";
  http_base_url = [];
  command = codes "/usr/bin/node";
  args = [];
  env = [];
}

listed : executor.allowlist ≡ parse_allowlist files (codes "/usr/bin/node")
unfolding parse_allowlist trim_space agenthub_skill_runtime.Base.split_byte has_prefix clean
    agenthub_skill_runtime.Base.Assoc.insert
listed = refl

dispatch-ok_example :
    ((codes "stdio" ≡ codes "stdio")
      × Started syn files
          (codes "/usr/bin/node")
          executor
          listed
          server
          (codes "echo")
          empty
          answer)
    ⊎ ((codes "stdio" ≡ codes "http")
        × Posted syn files
            (codes "/usr/bin/node")
            executor
            listed
            server
            (codes "echo")
            empty
            answer)
unfolding dispatch eqb agenthub_skill_runtime.Mcp.Stdio.execute_stdio trim_space resolve_command
    has_prefix clean agenthub_skill_runtime.Base.Assoc.lookup stdio_environment request
    agenthub_skill_runtime.Mcp.Protocol.notification
    agenthub_skill_runtime.Mcp.Protocol.result_from_response
dispatch-ok_example =
    dispatch-ok syn files (codes "/usr/bin/node") executor listed server (codes "echo") empty answer
      refl

abbrev ec : ExecutionContext
ec = record {
  tool_id = codes "t1";
  skill_slug = [];
  tenant_id = codes "acme";
  caller_token = [];
  input = empty;
  config =
      entry (codes "mcp_server_config_id") (str (codes "s1"))
        (entry (codes "tool_name") (str (codes "echo")) empty);
}

execute-Called_example : (execute syn executor ec ≡ ok answer) ↔ Called syn executor ec answer
execute-Called_example = execute-Called syn executor ec answer

was_called : execute syn executor ec ≡ ok answer
unfolding execute agenthub_skill_runtime.Base.equal_fold
    agenthub_skill_runtime.Mcp.ServerConfig.fetch_server_config
    agenthub_skill_runtime.Executor.Resolver.tenant_schema
    agenthub_skill_runtime.Mcp.ServerConfig.server_of agenthub_skill_runtime.Executor.set_entries
    dispatch agenthub_skill_runtime.Mcp.Stdio.execute_stdio trim_space resolve_command has_prefix
    clean agenthub_skill_runtime.Base.Assoc.lookup stdio_environment request
    agenthub_skill_runtime.Mcp.Protocol.notification
    agenthub_skill_runtime.Mcp.Protocol.result_from_response
was_called = refl
