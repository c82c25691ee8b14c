-- ===== src/Assembly/Registered.antt =====
-- The types of tools that the assembled server executes, and what each of them uses.
use mathlib.Core.Path.{subst}
use agenthub_skill_runtime.Base.{
  ◌≡◌, ◌≢◌, refl, ◌↔◌, ◌⊎◌, inl, inr, true, false, [], ℕ, Bytes, codes, eqb, eqb→eq, arith,
  Bool-cases, Option-cases, All, List, ◌∷◌, Option, none, some, if◌then◌else◌,
}
use agenthub_skill_runtime.Assembly.{
  Platform, new_http, new_mcp, http_tool_executor, sql_tool_executor, document_search_tool_executor,
  mcp_tool_executor, script_tool_executor, registry_of,
}
use agenthub_skill_runtime.Base.Assoc.{Assoc, lookup, lookup-insert}
use agenthub_skill_runtime.Config.{Config}
use agenthub_skill_runtime.Docsearch.Search.{Searched, execute-Searched}
use agenthub_skill_runtime.Executor.{
  ok, ExecutionContext, ToolResult, ToolExecutor, get, Registry, new_registry, register,
}
use agenthub_skill_runtime.Http.Execute.Replies.{Went, execute-Went}
use agenthub_skill_runtime.Mcp.Execute.Access.{Called, execute-Called}
use agenthub_skill_runtime.Script.Limits.{source, HasValue, execute_iff}
use agenthub_skill_runtime.Script.{timeout_ms}
use agenthub_skill_runtime.Sql.Execute.Access.{Ran, execute-Ran}

lookup-All {ℓ} :
    {V : Type ℓ} (P : Bytes → V → Type 0) (t : Bytes) (e : V) (m : Assoc V)
    → All (λ x. P x.0 x.1) m
    → lookup t m ≡ some e
    → P t e
unfolding lookup
lookup-All P t e [] h found = absurd (ground arith)
lookup-All P t e ((k, v) ∷ m) (h, hs) found = elim (Bool-cases (eqb k t)) [
  | inl q ↦
      let same : v ≡ e = ground arith in
      subst (λ x. P t x) same (subst (λ x. P x v) (eqb→eq k t q) h)
  | inr q ↦ lookup-All P t e m hs (ground arith)
]

get-lookup :
    (r : Registry) (t : Bytes) (e : ToolExecutor) → get r t ≡ ok e → lookup t r.executors ≡ some e
unfolding get
get-lookup r t e h = elim (Option-cases (lookup t r.executors)) [
  | inl q ↦ absurd (ground arith)
  | inr (x, q) ↦ ground arith
]

module _ (p : Platform) (cfg : Config) where
  pub data IsServed : Bytes → ToolExecutor → Type 0 where
    http : IsServed (codes "HTTP") (http_tool_executor p cfg.backend_base_url)
    sql : IsServed (codes "SQL") (sql_tool_executor p)
    documents :
        IsServed (codes "DOCUMENT_SEARCH") (document_search_tool_executor p cfg.embedding_url)
    mcp : IsServed (codes "MCP") (mcp_tool_executor p)
    script : IsServed (codes "SCRIPT") (script_tool_executor p)

  IsServed-get : (t : Bytes) (e : ToolExecutor) → IsServed t e → get (registry_of p cfg) t ≡ ok e
  unfolding registry_of get register lookup eqb new_registry
      agenthub_skill_runtime.Base.Assoc.insert
  IsServed-get _ _ http = refl
  IsServed-get _ _ sql = refl
  IsServed-get _ _ documents = refl
  IsServed-get _ _ mcp = refl
  IsServed-get _ _ script = refl

  get-IsServed : (t : Bytes) (e : ToolExecutor) → get (registry_of p cfg) t ≡ ok e → IsServed t e
  unfolding registry_of register eqb new_registry agenthub_skill_runtime.Base.Assoc.insert
  get-IsServed t e h =
      lookup-All IsServed t e (registry_of p cfg).executors
        (http, (sql, (documents, (mcp, (script, tt))))) (get-lookup (registry_of p cfg) t e h)

  -- What a run of a tool of each type has used, for the k-th attempt.
  pub data Accessed (ec : ExecutionContext) (k : ℕ) (r : ToolResult) : Bytes → Type 0 where
    sent :
        Went p.codec p.syntax (new_http p cfg.backend_base_url) (p.network k) ec r
        → Accessed ec k r (codes "HTTP")
    queried : Ran (p.database k) ec r → Accessed ec k r (codes "SQL")
    searched :
        Searched (p.documents k) cfg.embedding_url ec r → Accessed ec k r (codes "DOCUMENT_SEARCH")
    called : Called p.syntax (new_mcp p k) ec r → Accessed ec k r (codes "MCP")
    computed :
        source ec ≢ []
        → (p.engine k).set_input ec.input ≡ none
        → HasValue ((p.engine k).run_string (source ec) (timeout_ms ec.config) ec.input) r
        → Accessed ec k r (codes "SCRIPT")

  IsServed-Accessed :
      (ec : ExecutionContext) (k : ℕ) (r : ToolResult) (t : Bytes) (e : ToolExecutor)
      → IsServed t e
      → e.execute ec k ≡ ok r
      → Accessed ec k r t
  IsServed-Accessed ec k r _ _ http h =
      sent
        ((execute-Went p.codec p.syntax (new_http p cfg.backend_base_url) (p.network k) ec r).0 h)
  IsServed-Accessed ec k r _ _ sql h = queried ((execute-Ran (p.database k) ec r).0 h)
  IsServed-Accessed ec k r _ _ documents h =
      searched ((execute-Searched (p.documents k) cfg.embedding_url ec r).0 h)
  IsServed-Accessed ec k r _ _ mcp h = called ((execute-Called p.syntax (new_mcp p k) ec r).0 h)
  IsServed-Accessed ec k r _ _ script h =
      let (given, accepted, value) = (execute_iff (p.engine k) ec r).0 h in
      computed given accepted value

  -- The run of a tool by the executor that New has registered for its type.
  pub record IsRun (ec : ExecutionContext) (k : ℕ) (r : ToolResult) (t : Bytes) : Type 0 where
    pub exec : ToolExecutor
    pub registered : get (registry_of p cfg) t ≡ ok exec
    pub done : exec.execute ec k ≡ ok r

  IsServed-IsRun :
      {ec : ExecutionContext} {k : ℕ} {r : ToolResult} {t : Bytes} (e : ToolExecutor)
      → IsServed t e
      → e.execute ec k ≡ ok r
      → IsRun ec k r t
  IsServed-IsRun {t} e s h = record { exec = e; registered = IsServed-get t e s; done = h }

  Accessed-IsRun :
      (ec : ExecutionContext) (k : ℕ) (r : ToolResult) (t : Bytes)
      → Accessed ec k r t
      → IsRun ec k r t
  Accessed-IsRun ec k r _ (sent w) =
      IsServed-IsRun _ http
        ((execute-Went p.codec p.syntax (new_http p cfg.backend_base_url) (p.network k) ec r).1 w)
  Accessed-IsRun ec k r _ (queried w) = IsServed-IsRun _ sql ((execute-Ran (p.database k) ec r).1 w)
  Accessed-IsRun ec k r _ (searched w) =
      IsServed-IsRun _ documents ((execute-Searched (p.documents k) cfg.embedding_url ec r).1 w)
  Accessed-IsRun ec k r _ (called w) =
      IsServed-IsRun _ mcp ((execute-Called p.syntax (new_mcp p k) ec r).1 w)
  Accessed-IsRun ec k r _ (computed given accepted value) =
      IsServed-IsRun _ script ((execute_iff (p.engine k) ec r).1 (given, accepted, value))

  -- The executor that New has registered for a tool's type has a result exactly if the type is HTTP and
  -- an allowed request was answered; SQL and a query or command was run on a data source of the
  -- tenant's schema; DOCUMENT_SEARCH and the chunks of that schema were searched; MCP and a server of
  -- that schema was called; or SCRIPT and the script had a value. No other type has one.
  pub registry_of-Accessed :
      (ec : ExecutionContext) (k : ℕ) (r : ToolResult) (t : Bytes)
      → IsRun ec k r t ↔ Accessed ec k r t
  registry_of-Accessed ec k r t = (
    λ run. IsServed-Accessed ec k r t run.exec (get-IsServed t run.exec run.registered) run.done,
    Accessed-IsRun ec k r t,
  )
