-- ===== src/Assembly/Tenancy.antt =====
-- Whose data a request reaches: the handlers, the resolver, the invoker and the executors together.
use mathlib.Core.Path.{subst}
use agenthub_skill_runtime.Assembly.{
  Platform, Situation, server_of, execute_skill, execute_tool, request_of, json_reply, protected,
  serve_http,
}
use agenthub_skill_runtime.Assembly.Registered.{Accessed, registry_of-Accessed}
use agenthub_skill_runtime.Base.{ap, ◌∙◌, sym, ◌≡◌, ℕ, List, [], some, Bytes, arith}
use agenthub_skill_runtime.Config.{Config, cors_origins}
use agenthub_skill_runtime.Executor.{Object, Result, ok, ToolResult}
use agenthub_skill_runtime.Executor.Resolver.{Tool, resolve_skill, resolve_tool}
use agenthub_skill_runtime.Middleware.Auth.{Identity, Decision, next}
use agenthub_skill_runtime.Middleware.Chain.{Incoming, Reply, replied, serve}
use agenthub_skill_runtime.Middleware.Chain.Reached.{
  Answered, preflight, refused, handled, failed, serve-Answered,
}
use agenthub_skill_runtime.Server.{
  HttpRequest, HttpResponse, parse_execute_body, execution_context, write_output,
  handle_execute_skill, handle_execute_tool,
}
use agenthub_skill_runtime.Server.Attempts.{invoke_once-run}
use agenthub_skill_runtime.Server.Status.{
  Served, handle_execute_skill-Served, handle_execute_tool-Served,
}

module _ (decision : Decision) (handle : HttpRequest → HttpResponse) (path : Bytes)
    (decoded : Result Object) where
  -- The identity behind an answer 200 of a protected route, and what its handler has answered.
  pub record IsAdmitted (reply : Reply) : Type 0 where
    pub id : Identity
    pub admitted : decision ≡ next id
    pub status : (handle (request_of (some id) path decoded)).status ≡ 200
    pub body : reply.body ≡ (handle (request_of (some id) path decoded)).body

  answered-IsAdmitted :
      (r : Incoming) (reply : Reply)
      → Answered decision (protected handle path decoded) r reply
      → reply.status ≡ 200
      → IsAdmitted reply
  answered-IsAdmitted r reply (preflight options status) h = absurd (ground arith)
  answered-IsAdmitted r reply (refused message q status) h = absurd (ground arith)
  answered-IsAdmitted r reply (failed id seen x y q i panic status) h = absurd (ground arith)
  answered-IsAdmitted r reply (handled id seen x q i m done) h =
      let same : json_reply x (handle (request_of (some id) path decoded)) ≡ reply =
        ground (arith, done, i) in
      record {
        id = id;
        admitted = q;
        status = ap (λ y. y.status) same ∙ h;
        body = ap (λ y. y.body) (sym same);
      }

  serve-IsAdmitted :
      (allowed : List Bytes) (uuid : Bytes) (r : Incoming) (reply : Reply)
      → serve allowed uuid decision (protected handle path decoded) r ≡ replied reply
      → reply.status ≡ 200
      → IsAdmitted reply
  serve-IsAdmitted allowed uuid r reply e h =
      let (reply', e', answered) =
        serve-Answered allowed uuid decision (protected handle path decoded) r in
      let same : reply' ≡ reply = ground (arith, e, e') in
      answered-IsAdmitted r reply
        (subst (Answered decision (protected handle path decoded) r) same answered) h

module _ (p : Platform) (cfg : Config) (w : Situation) where
  -- A tool that was found for the tenant of a verified token, and the one run of it that had a result.
  pub record Executed (decision : Decision) (path : Bytes) (decoded : Result Object)
      (find : Bytes → Result Tool) (slug : Bytes) (reply : Reply) : Type 0 where
    pub id : Identity
    pub tool : Tool
    pub input : Object
    pub config : Object
    pub attempt : ℕ
    pub result : ToolResult
    pub admitted : decision ≡ next id
    pub resolved : find id.tenant_id ≡ ok tool
    pub parsed : parse_execute_body (request_of (some id) path decoded) ≡ ok input
    pub accessed :
        Accessed p cfg
          (execution_context (request_of (some id) path decoded) tool slug input config)
          attempt
          result
          tool.tool_type
    pub answer : reply.body ≡ (write_output (record result { latency_ms = w.elapsed attempt })).body

  Served-Executed :
      (decision : Decision) (path : Bytes) (decoded : Result Object) (find : Bytes → Result Tool)
      (slug : Bytes) (reply : Reply) (id : Identity) (response : HttpResponse)
      → decision ≡ next id
      → Served
          (server_of p cfg w)
          (request_of (some id) path decoded)
          slug
          (find id.tenant_id)
          response
      → reply.body ≡ response.body
      → Executed decision path decoded find slug reply
  Served-Executed decision path decoded find slug reply id response q s e =
      let ec = execution_context (request_of (some id) path decoded) s.tool slug s.input s.config in
      let (k, x, ran, same) = invoke_once-run (server_of p cfg w) s.exec ec s.result s.done in
      record {
        id = id;
        tool = s.tool;
        input = s.input;
        config = s.config;
        attempt = k;
        result = x;
        admitted = q;
        resolved = s.resolved;
        parsed = s.parsed;
        accessed =
            (registry_of-Accessed p cfg ec k x s.tool.tool_type).0
              (record { exec = s.exec; registered = s.registered; done = ran });
        answer = e ∙ ap (λ y. y.body) s.answer ∙ ap (λ y. (write_output y).body) same;
      }

  -- A skill's execution is answered by 200 only if Auth has verified a token, the slug resolves to a
  -- tool for the token's tenant, the body has an input, and the executor of the tool's type, called with
  -- the tenant and the caller of that token, had the result of the answer in some attempt.
  pub serve_http-skill :
      (decision : Decision) (path slug : Bytes) (decoded : Result Object) (r : Incoming)
      (reply : Reply)
      → serve_http p cfg w decision (execute_skill slug) path decoded r ≡ replied reply
      → reply.status ≡ 200
      → Executed decision path decoded
          (λ tenant_id. resolve_skill w.resolver tenant_id slug)
          slug
          reply
  unfolding serve_http
  serve_http-skill decision path slug decoded r reply e h =
      let handle = λ (q : HttpRequest). handle_execute_skill (server_of p cfg w) q slug in
      let a = serve-IsAdmitted decision handle path decoded (cors_origins cfg) w.uuid r reply e h in
      Served-Executed decision path decoded (λ tenant_id. resolve_skill w.resolver tenant_id slug)
        slug reply a.id (handle (request_of (some a.id) path decoded)) a.admitted
        (handle_execute_skill-Served (server_of p cfg w) (request_of (some a.id) path decoded) slug
          a.status)
        a.body

  -- A tool's execution by its id is answered by 200 under the same conditions, with an empty slug.
  pub serve_http-tool :
      (decision : Decision) (path tool_id : Bytes) (decoded : Result Object) (r : Incoming)
      (reply : Reply)
      → serve_http p cfg w decision (execute_tool tool_id) path decoded r ≡ replied reply
      → reply.status ≡ 200
      → Executed decision path decoded
          (λ tenant_id. resolve_tool w.resolver tenant_id tool_id)
          []
          reply
  unfolding serve_http
  serve_http-tool decision path tool_id decoded r reply e h =
      let handle = λ (q : HttpRequest). handle_execute_tool (server_of p cfg w) q tool_id in
      let a = serve-IsAdmitted decision handle path decoded (cors_origins cfg) w.uuid r reply e h in
      Served-Executed decision path decoded (λ tenant_id. resolve_tool w.resolver tenant_id tool_id)
        [] reply a.id (handle (request_of (some a.id) path decoded)) a.admitted
        (handle_execute_tool-Served (server_of p cfg w) (request_of (some a.id) path decoded)
          tool_id a.status)
        a.body
