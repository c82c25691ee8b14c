-- ===== src/Assembly.antt =====
-- internal/server/server.go: the five executors that New registers, the health handlers, and the
-- answer to a request, with the constructors of the executors. Which endpoint chi finds for a method
-- and a path is given with the request.
pub mod Registered
pub mod Tenancy
pub mod Isolation
mod Tests
use agenthub_skill_runtime.Base.{ℕ, List, [], ◌∷◌, Option, none, some, Bytes, codes, if◌then◌else◌}
use agenthub_skill_runtime.Base.Assoc.{Assoc, insert}
use agenthub_skill_runtime.Config.{Config, cors_origins}
use agenthub_skill_runtime.Docsearch.{Services}
use agenthub_skill_runtime.Docsearch.{execute as execute_document_search}
use agenthub_skill_runtime.Executor.{
  str, Object, empty, entry, Result, ok, err, ToolExecutor, Registry, new_registry, register,
}
use agenthub_skill_runtime.Executor.Resolver.{Pool}
use agenthub_skill_runtime.Http.Execute.{Codec, Network, HttpToolExecutor}
use agenthub_skill_runtime.Http.Execute.{execute as execute_http}
use agenthub_skill_runtime.Http.Ssrf.{Syntax}
use agenthub_skill_runtime.Mcp.Allowlist.{FileSystem, parse_allowlist}
use agenthub_skill_runtime.Mcp.Execute.{HttpClient, McpToolExecutor}
use agenthub_skill_runtime.Mcp.Execute.{execute as execute_mcp}
use agenthub_skill_runtime.Mcp.ServerConfig.{ServerRow}
use agenthub_skill_runtime.Mcp.Stdio.{Spawner}
use agenthub_skill_runtime.Middleware.Auth.{Identity, Decision}
use agenthub_skill_runtime.Middleware.Chain.{
  Incoming, Reply, Outcome, replied, Handler, cors, guarded, serve,
}
use agenthub_skill_runtime.Script.{Engine}
use agenthub_skill_runtime.Script.{execute as execute_script}
use agenthub_skill_runtime.Server.{
  HttpRequest, HttpResponse, Server, handle_execute_skill, handle_execute_tool,
}
use agenthub_skill_runtime.Sql.Execute.{Database}
use agenthub_skill_runtime.Sql.Execute.{execute as execute_sql}

-- What the executors use of the world. What changes between the attempts of a call is given for the
-- k-th attempt.
pub record Platform : Type 0 where
  pub codec : Codec
  pub syntax : Syntax
  pub network : ℕ → Network
  pub database : ℕ → Database
  pub documents : ℕ → Services
  pub file_system : FileSystem
  -- os.Getenv(mcpStdioAllowedCommandsEnv)
  pub allowed_commands : Bytes
  pub mcp_servers : ℕ → Bytes → Result (List ServerRow)
  pub spawner : ℕ → Spawner
  pub client : ℕ → HttpClient
  pub engine : ℕ → Engine

module _ (p : Platform) where
  -- NewHTTPToolExecutor
  abbrev pub new_http : Bytes → HttpToolExecutor
  new_http backend_base_url = record { backend_base_url = backend_base_url; url_validator = none }

  abbrev pub http_tool_executor : Bytes → ToolExecutor
  http_tool_executor backend_base_url = record {
    tool_type = codes "HTTP";
    execute = λ ec k. execute_http p.codec p.syntax (new_http backend_base_url) (p.network k) ec;
  }

  abbrev pub sql_tool_executor : ToolExecutor
  sql_tool_executor = record {
    tool_type = codes "SQL";
    execute = λ ec k. execute_sql (p.database k) ec;
  }

  abbrev pub document_search_tool_executor : Bytes → ToolExecutor
  document_search_tool_executor default_url = record {
    tool_type = codes "DOCUMENT_SEARCH";
    execute = λ ec k. execute_document_search (p.documents k) default_url ec;
  }

  -- NewMCPToolExecutor
  abbrev pub new_mcp : ℕ → McpToolExecutor
  new_mcp k = record {
    pool = p.mcp_servers k;
    allowlist = parse_allowlist p.file_system p.allowed_commands;
    spawner = p.spawner k;
    client = p.client k;
  }

  abbrev pub mcp_tool_executor : ToolExecutor
  mcp_tool_executor = record {
    tool_type = codes "MCP";
    execute = λ ec k. execute_mcp p.syntax (new_mcp k) ec;
  }

  abbrev pub script_tool_executor : ToolExecutor
  script_tool_executor = record {
    tool_type = codes "SCRIPT";
    execute = λ ec k. execute_script (p.engine k) ec;
  }

  -- New: reg
  unfoldable pub registry_of : Config → Registry
  registry_of cfg = register script_tool_executor (
      register mcp_tool_executor (
        register (document_search_tool_executor cfg.embedding_url) (
          register sql_tool_executor
            (register (http_tool_executor cfg.backend_base_url) new_registry))))

-- What a request needs besides the platform: the tables of the resolver, json.Unmarshal, the ends of
-- the waits and the clock, whether the database answers, and a generated id.
pub record Situation : Type 0 where
  pub resolver : Pool
  pub unmarshal : Bytes → Result Object
  pub cancelled : ℕ → Option Bytes
  pub elapsed : ℕ → ℕ
  pub ping : Result (Unit {0})
  pub uuid : Bytes

-- New: s
abbrev pub server_of : Platform → Config → Situation → Server
server_of p cfg w = record {
  registry = registry_of p cfg;
  resolver = w.resolver;
  unmarshal = w.unmarshal;
  cancelled = w.cancelled;
  elapsed = w.elapsed;
}

abbrev pub json_reply : Assoc Bytes → HttpResponse → Reply
json_reply h response = record {
  status = response.status;
  headers = insert (codes "Content-Type") (codes "application/json") h;
  body = response.body;
}

abbrev pub up : HttpResponse
up = record { status = 200; body = entry (codes "status") (str (codes "UP")) empty }

abbrev pub down : HttpResponse
down = record {
  status = 503;
  body =
      entry (codes "reason") (str (codes "database unreachable"))
        (entry (codes "status") (str (codes "DOWN")) empty);
}

unfoldable pub handle_health : Handler
handle_health r h = replied (json_reply h up)

abbrev pub readiness : Result (Unit {0}) → HttpResponse
readiness (ok answer) = up
readiness (err e) = down

unfoldable pub handle_ready : Result (Unit {0}) → Handler
handle_ready ping r h = replied (json_reply h (readiness ping))

-- The route that chi finds, with its parameter; or its own answer, 404 or 405.
pub data Endpoint : Type 0 where
  health : Endpoint
  ready : Endpoint
  execute_skill : Bytes → Endpoint
  execute_tool : Bytes → Endpoint
  missing : ℕ → Endpoint

-- What the handlers read of a request, with TenantIDFromContext and RawTokenFromContext
abbrev pub request_of : Option Identity → Bytes → Result Object → HttpRequest
request_of none path decoded = record {
  path = path;
  decoded = decoded;
  tenant_id = [];
  raw_token = [];
}
request_of (some id) path decoded = record {
  path = path;
  decoded = decoded;
  tenant_id = id.tenant_id;
  raw_token = id.raw_token;
}

abbrev pub protected : (HttpRequest → HttpResponse) → Bytes → Result Object → Handler
protected handle path decoded r h =
    replied (json_reply h (handle (request_of r.identity path decoded)))

abbrev pub not_routed : ℕ → Handler
not_routed status r h = replied (record { status = status; headers = h; body = empty })

-- ServeHTTP: CORS at the root, the health endpoints, and the protected group behind its middleware.
unfoldable pub serve_http :
    Platform → Config → Situation → Decision → Endpoint → Bytes → Result Object → Incoming → Outcome
unfolding handle_health handle_ready
serve_http p cfg w decision health path decoded r = cors (cors_origins cfg) handle_health r []
serve_http p cfg w decision ready path decoded r =
    cors (cors_origins cfg) (handle_ready w.ping) r []
serve_http p cfg w decision (execute_skill slug) path decoded r =
    serve (cors_origins cfg) w.uuid decision
      (protected (λ q. handle_execute_skill (server_of p cfg w) q slug) path decoded) r
serve_http p cfg w decision (execute_tool id) path decoded r =
    serve (cors_origins cfg) w.uuid decision
      (protected (λ q. handle_execute_tool (server_of p cfg w) q id) path decoded) r
serve_http p cfg w decision (missing status) path decoded r =
    cors (cors_origins cfg) (not_routed status) r []
