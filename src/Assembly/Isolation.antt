-- ===== src/Assembly/Isolation.antt =====
-- Whose data a request reaches, from its Authorization header on.
use agenthub_skill_runtime.Assembly.{Platform, Situation, execute_skill, serve_http}
use agenthub_skill_runtime.Assembly.Tenancy.{Executed, serve_http-skill}
use agenthub_skill_runtime.Base.{◌≡◌, Bool, Bytes}
use agenthub_skill_runtime.Config.{Config}
use agenthub_skill_runtime.Executor.{Object, Result}
use agenthub_skill_runtime.Executor.Resolver.{resolve_skill}
use agenthub_skill_runtime.Executor.Resolver.Order.{Resolved, resolve_skill-Resolved}
use agenthub_skill_runtime.Middleware.Auth.{Decision, Jwt, auth}
use agenthub_skill_runtime.Middleware.Auth.Verified.{IsVerifying, IsVerified, auth-IsVerified}
use agenthub_skill_runtime.Middleware.Chain.{Incoming, Reply, replied}
use agenthub_skill_runtime.Middleware.Jwks.{PublicKey, Cache, Encoding, Moment}
use agenthub_skill_runtime.Middleware.Jwks.Genuine.{IsTrusted}

module _ (p : Platform) (cfg : Config) (w : Situation) (enc : Encoding) (jwt : Jwt)
    (verifies : Bytes → PublicKey → Bool) (m : Moment) (auth_header : Bytes) (cache : Cache) where
  -- What Auth decides, with the address that the configuration has for Keycloak.
  abbrev pub decision_of : Decision
  decision_of = (auth enc jwt cfg.keycloak_base_url m auth_header cache).0

  -- If the JWT library keeps what it documents and the cache of keys is trusted, then a skill's execution
  -- is answered by 200 only for a bearer token that verifies under a key of the tenant that its issuer
  -- names. The slug then resolves, as the resolver's order has it, to a tool that an active binding of that
  -- tenant's schema names or to an active platform tool; the body has an input; and the executor of the
  -- tool's type, called for that tenant, had the result of the answer in some attempt: a SQL tool on a data
  -- source, a document search on the chunks, and an MCP tool on a server of that tenant's schema; an HTTP
  -- tool by a request that its guard allows, and a script by its value.
  pub skill-IsIsolated :
      (path slug : Bytes) (decoded : Result Object) (r : Incoming) (reply : Reply)
      → IsVerifying jwt verifies
      → IsTrusted enc cfg.keycloak_base_url cache
      → serve_http p cfg w decision_of (execute_skill slug) path decoded r ≡ replied reply
      → reply.status ≡ 200
      → (x : Executed p cfg w decision_of path decoded
          (λ tenant_id. resolve_skill w.resolver tenant_id slug)
          slug
          reply)
        × IsVerified enc jwt verifies cfg.keycloak_base_url m auth_header x.id.tenant_id
            x.id.raw_token
        × Resolved w.resolver x.id.tenant_id slug x.tool
  skill-IsIsolated path slug decoded r reply library trusted e h =
      let x = serve_http-skill p cfg w decision_of path slug decoded r reply e h in
      (
        x,
        auth-IsVerified enc jwt verifies cfg.keycloak_base_url m auth_header cache x.id library
            trusted x.admitted,
        resolve_skill-Resolved w.resolver x.id.tenant_id slug x.tool x.resolved,
      )
