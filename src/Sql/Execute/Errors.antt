-- ===== src/Sql/Execute/Errors.antt =====
-- The configuration errors of the SQL executor.
use agenthub_skill_runtime.Base.{◌≡◌, refl, ◌⊎◌, inl, inr, true, is_empty, Bool-cases}
use agenthub_skill_runtime.Executor.{Error, is_permanent, ok, err, ExecutionContext}
use agenthub_skill_runtime.Sql.Execute.{
  SqlConfig, parse_sql_config, Database, execute, no_datasource, no_query,
}

module _ (db : Database) (ec : ExecutionContext) (cfg : SqlConfig) where
  -- A configuration without a data source or without a query is refused with the same error whatever
  -- the database would answer, and with one that is not retried.
  pub execute_unconfigured :
      parse_sql_config ec.config ≡ ok cfg
      → (is_empty cfg.datasource_id ≡ true) ⊎ (is_empty cfg.query ≡ true)
      → (e : Error) × (((other : Database) → execute other ec ≡ err e) × (is_permanent e ≡ true))
  unfolding execute is_permanent
  execute_unconfigured h (inl p) = (no_datasource, (λ other. rw (h, p), refl))
  execute_unconfigured h (inr p) = elim (Bool-cases (is_empty cfg.datasource_id)) [
    | inl q ↦ (no_datasource, (λ other. rw (h, q), refl))
    | inr q ↦ (no_query, (λ other. rw (h, q, p), refl))
  ]
