-- ===== src/Assembly/Tests.antt =====
-- The assembled server at a concrete platform.
use agenthub_skill_runtime.Assembly.{Platform, Situation, execute_skill, serve_http}
use agenthub_skill_runtime.Assembly.Registered.{IsRun, Accessed, registry_of-Accessed}
use agenthub_skill_runtime.Assembly.Isolation.{decision_of, skill-IsIsolated}
use agenthub_skill_runtime.Assembly.Tenancy.{Executed}
use agenthub_skill_runtime.Executor.Resolver.Order.{Resolved}
use agenthub_skill_runtime.Middleware.Sample.{
  encoding, moment, no_entries, jwt, id, signed, documented, admitted,
}
use agenthub_skill_runtime.Middleware.Auth.Verified.{IsVerified}
use agenthub_skill_runtime.Base.{
  ◌≡◌, refl, ap, ◌∙◌, ◌↔◌, true, [], ◌∷◌, none, some, Bytes, codes, eqb, if◌then◌else◌,
}
use agenthub_skill_runtime.Base.Int.{pos}
use agenthub_skill_runtime.Config.{Config}
use agenthub_skill_runtime.Executor.{
  null, obj, str, int, Object, empty, entry, Error, leaf, Result, ok, err, ExecutionContext,
  ToolResult,
}
use agenthub_skill_runtime.Executor.Resolver.{Tool, Schema, resolve_skill}
use agenthub_skill_runtime.Middleware.Auth.{Decision, next}
use agenthub_skill_runtime.Middleware.Chain.{Incoming, Reply, Outcome, replied}
use agenthub_skill_runtime.Sql.Datasource.{DatasourceConfig}

abbrev nothing : Error
nothing = leaf (codes "unreachable")

abbrev source : DatasourceConfig
source = record {
  host = codes "db";
  port = 5432;
  database = codes "shop";
  db_user = codes "bob";
  db_password = codes "secret";
  kind = codes "POSTGRESQL";
}

-- Only the database answers, and only acme has a data source.
abbrev platform : Platform
platform = record {
  codec = record {
    marshal = λ v. [];
    unmarshal = λ s. none;
    sprint = λ v. [];
    status_text = λ n. [];
  };
  syntax = record { parse_url = λ s. err nothing; parse_ip = λ s. none };
  network = λ k. record { reject = λ r. none; send = λ r. err nothing };
  database = λ k. record {
    data_source = λ schema.
        if eqb schema (codes "ah_acme")
        then ok (record { id = codes "d1"; scanned = ok source } ∷ [])
        else err nothing;
    connect = λ dsn. ok tt;
    query = λ dsn query args. err nothing;
    exec = λ dsn query args. ok 3;
  };
  documents = λ k. record {
    post = λ url text. err nothing;
    search = λ schema v base threshold top_k. err nothing;
  };
  file_system = record { eval_symlinks = λ path. ok path; stat = λ path. ok (true, true) };
  allowed_commands = [];
  mcp_servers = λ k schema. err nothing;
  spawner = λ k. record { start = λ command args env. err nothing };
  client = λ k. record { post = λ url r. err nothing; decode = λ body. err nothing };
  engine = λ k. record {
    set_input = λ input. some nothing;
    run_string = λ source ms input. (err nothing, []);
  };
}

abbrev cfg : Config
cfg = record {
  server_port = codes "8083";
  database_url = codes "postgres://core";
  keycloak_base_url = codes "https://idp";
  keycloak_public_url = [];
  cors_allowed_origins = codes "*";
  log_level = codes "info";
  otlp_endpoint = [];
  rabbit_mq_url = [];
  backend_base_url = codes "http://api";
  embedding_url = codes "http://embed";
}

abbrev tool : Tool
tool = record { id = codes "t1"; tool_type = codes "SQL"; config = codes "{..}" }

abbrev acme : Schema
acme = record {
  skill = record { id = codes "s1"; slug = codes "purge" } ∷ [];
  skill_tool =
      record {
        skill_id = codes "s1";
        tool_id = codes "t1";
        is_active = true;
        priority = 0;
        created_at = 1;
      }
      ∷ [];
  tool = record { slug = codes "purge-tool"; tool = tool } ∷ [];
}

abbrev config : Object
config = entry (codes "datasource_id") (str (codes "d1")) (
    entry (codes "operation") (str (codes "delete"))
      (entry (codes "query") (str (codes "DELETE FROM t")) empty))

abbrev situation : Situation
situation = record {
  resolver = record { schema = λ k name. ok acme; core_tool = ok [] };
  unmarshal = λ s. ok config;
  cancelled = λ k. none;
  elapsed = λ k. 7;
  ping = ok tt;
  uuid = codes "u1";
}

abbrev incoming : Incoming
incoming = record {
  method = codes "POST";
  origin = [];
  request_id = [];
  context_request_id = none;
  identity = none;
}

abbrev path : Bytes
path = codes "/api/skills/purge/execute"

abbrev reply : Reply
reply = record {
  status = 200;
  headers =
      (codes "X-Request-ID", codes "u1") ∷ (codes "Content-Type", codes "application/json") ∷ [];
  body =
      entry (codes "latencyMs") (int (pos 7))
        (entry (codes "output") (obj (entry (codes "rowsAffected") (int (pos 3)) empty)) empty);
}

answered :
    serve_http platform cfg situation
      (next id)
      (execute_skill (codes "purge"))
      path
      (ok empty)
      incoming
    ≡ replied reply
unfolding serve_http agenthub_skill_runtime.Middleware.Chain.serve
    agenthub_skill_runtime.Middleware.Chain.cors
    agenthub_skill_runtime.Middleware.Chain.recovery_answer
    agenthub_skill_runtime.Server.handle_execute_skill agenthub_skill_runtime.Base.Assoc.insert
    agenthub_skill_runtime.Server.parse_execute_body
    agenthub_skill_runtime.Middleware.Chain.is_granted
    agenthub_skill_runtime.Server.is_direct_tool_execute_request
    agenthub_skill_runtime.Base.has_prefix agenthub_skill_runtime.Base.has_suffix
    agenthub_skill_runtime.Executor.field? agenthub_skill_runtime.Executor.Resolver.resolve_skill
    agenthub_skill_runtime.Executor.Resolver.first_row
    agenthub_skill_runtime.Executor.Resolver.by_skill agenthub_skill_runtime.Server.execute_tool
    agenthub_skill_runtime.Executor.get agenthub_skill_runtime.Base.Assoc.lookup
    agenthub_skill_runtime.Assembly.registry_of agenthub_skill_runtime.Executor.register
    agenthub_skill_runtime.Executor.new_registry agenthub_skill_runtime.Server.tool_config
    agenthub_skill_runtime.Server.invoke_once agenthub_skill_runtime.Invoker.invoke
    agenthub_skill_runtime.Invoker.attempts agenthub_skill_runtime.Sql.Execute.execute
    agenthub_skill_runtime.Sql.Execute.parse_sql_config agenthub_skill_runtime.Base.equal_fold
    agenthub_skill_runtime.Sql.Datasource.fetch_datasource
    agenthub_skill_runtime.Executor.Resolver.tenant_schema agenthub_skill_runtime.Sql.Execute.run
    agenthub_skill_runtime.Base.to_upper agenthub_skill_runtime.Middleware.Chain.cors_headers eqb
answered = refl

abbrev decision : Decision
decision = decision_of platform cfg situation encoding jwt signed moment (codes "Bearer t.o.k") []

answered_behind_auth :
    serve_http platform cfg situation decision
      (execute_skill (codes "purge"))
      path
      (ok empty)
      incoming
    ≡ replied reply
answered_behind_auth =
    ap
      (λ d.
        serve_http platform cfg situation d (execute_skill (codes "purge")) path (ok empty)
          incoming)
      admitted
    ∙ answered

skill-IsIsolated_example :
    (x : Executed platform cfg situation decision path
      (ok empty)
      (λ tenant_id. resolve_skill situation.resolver tenant_id (codes "purge"))
      (codes "purge")
      reply)
    × IsVerified encoding jwt signed
        (codes "https://idp")
        moment
        (codes "Bearer t.o.k")
        x.id.tenant_id
        x.id.raw_token
    × Resolved situation.resolver x.id.tenant_id (codes "purge") x.tool
skill-IsIsolated_example =
    skill-IsIsolated platform cfg situation encoding jwt signed moment (codes "Bearer t.o.k") []
      path (codes "purge") (ok empty) incoming reply documented no_entries answered_behind_auth refl

abbrev ec : ExecutionContext
ec = record {
  tool_id = codes "t1";
  skill_slug = codes "purge";
  tenant_id = codes "acme";
  caller_token = codes "jwt";
  input = empty;
  config = config;
}

abbrev deleted : ToolResult
deleted = record {
  output = some (entry (codes "rowsAffected") (int (pos 3)) empty);
  error = [];
  latency_ms = 0;
}

registry_of-Accessed_example :
    IsRun platform cfg ec 0 deleted (codes "SQL") ↔ Accessed platform cfg ec 0 deleted (codes "SQL")
registry_of-Accessed_example = registry_of-Accessed platform cfg ec 0 deleted (codes "SQL")
