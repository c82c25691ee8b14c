-- ===== src/Server/Tests.antt =====
-- The handlers at a concrete server.
use mathlib.Core.Path.{subst}
use agenthub_skill_runtime.Base.Assoc.{lookup}
use agenthub_skill_runtime.Base.{some, ap, eqb, ◌≡◌, true, [], ◌∷◌, none, codes, arith}
use agenthub_skill_runtime.Executor.{
  obj, str, Object, empty, entry, Result, ok, err, ExecutionContext, ToolExecutor, get,
}
use agenthub_skill_runtime.Executor.Resolver.{Tool, Schema}
use agenthub_skill_runtime.Server.{HttpRequest, Server, execute_tool}
use agenthub_skill_runtime.Server.Attempts.{HasOwnErrors}
use agenthub_skill_runtime.Server.Status.{Response, execute_tool-Response}

abbrev echo : ToolExecutor
echo = record {
  tool_type = codes "ECHO";
  execute = λ ec k. ok (record { output = some ec.input; error = []; latency_ms = k });
}

abbrev tool : Tool
tool = record { id = codes "t1"; tool_type = codes "ECHO"; config = [] }

abbrev acme : Schema
acme = record {
  skill = record { id = codes "s1"; slug = codes "say" } ∷ [];
  skill_tool =
      record {
        skill_id = codes "s1";
        tool_id = codes "t1";
        is_active = true;
        priority = 0;
        created_at = 1;
      }
      ∷ [];
  tool = record { slug = codes "say-tool"; tool = tool } ∷ [];
}

abbrev service : Server
service = record {
  registry = record { executors = (codes "ECHO", echo) ∷ [] };
  resolver = record { schema = λ k name. ok acme; core_tool = ok [] };
  unmarshal = λ s. ok empty;
  cancelled = λ k. none;
  elapsed = λ k. 3;
}

abbrev said : Object
said = entry (codes "text") (str (codes "hi")) empty

-- The envelope of the runner.
abbrev body : Object
body =
    entry (codes "context") (obj (entry (codes "tenantId") (str (codes "acme")) empty))
      (entry (codes "input") (obj said) empty)

abbrev call : HttpRequest
call = record {
  path = codes "/api/skills/say/execute";
  decoded = ok body;
  tenant_id = codes "acme";
  raw_token = codes "jwt";
}

-- The registered executor returns no error at all.
abbrev executor_of : Result ToolExecutor → ToolExecutor
executor_of (ok exec) = exec
executor_of (err e) = echo

no_errors :
    (exec : ToolExecutor) (ec : ExecutionContext)
    → get service.registry (codes "ECHO") ≡ ok exec
    → HasOwnErrors service exec ec
unfolding get lookup eqb
no_errors exec ec found =
    subst (λ x. HasOwnErrors service x ec) {x = echo} (ap executor_of found)
      (λ k e failed. absurd (ground arith))

execute_tool-Response_example :
    Response service call tool
      (codes "say")
      said
      (execute_tool service call tool (codes "say") said)
execute_tool-Response_example = execute_tool-Response service call tool (codes "say") said no_errors
