-- ===== src/Sql/Execute/Access.antt =====
-- What a run of the SQL executor has read and connected to.
use agenthub_skill_runtime.Base.{
  ◌≡◌, ◌↔◌, inl, inr, true, false, List, Bytes, codes, is_empty, equal_fold, arith,
}
use agenthub_skill_runtime.Executor.{Result, ok, Result-cases, ExecutionContext, ToolResult}
use agenthub_skill_runtime.Executor.Resolver.{tenant_schema}
use agenthub_skill_runtime.Sql.Datasource.{
  DatasourceConfig, DatasourceRow, find_datasource, fetch_datasource, datasource_dsn,
}
use agenthub_skill_runtime.Sql.Execute.{SqlConfig, parse_sql_config, Database, run, execute}

fetch_datasource-ok :
    (pool : Bytes → Result (List DatasourceRow)) (tenant_id id : Bytes) (ds : DatasourceConfig)
    → fetch_datasource pool tenant_id id ≡ ok ds
    → (rows : List DatasourceRow) × (pool (tenant_schema tenant_id) ≡ ok rows)
      × (find_datasource id rows ≡ ok ds)
unfolding fetch_datasource
fetch_datasource-ok pool tenant_id id ds h = elim (Result-cases (pool (tenant_schema tenant_id))) [
  | inr (e, q) ↦ absurd (ground arith)
  | inl (rows, q) ↦ (rows, q, ground arith)
]

module _ (db : Database) (ec : ExecutionContext) where
  -- The data source that was connected to, and what was asked of it.
  pub record Ran (r : ToolResult) : Type 0 where
    pub cfg : SqlConfig
    pub rows : List DatasourceRow
    pub ds : DatasourceConfig
    pub parsed : parse_sql_config ec.config ≡ ok cfg
    pub named : is_empty cfg.datasource_id ≡ false
    pub asked : is_empty cfg.query ≡ false
    pub table : db.data_source (tenant_schema ec.tenant_id) ≡ ok rows
    pub found : find_datasource cfg.datasource_id rows ≡ ok ds
    pub supported : equal_fold ds.kind (codes "POSTGRESQL") ≡ true
    pub connected : db.connect (datasource_dsn ds) ≡ ok tt
    pub done : run db (datasource_dsn ds) cfg ec.input ≡ ok r

  execute→Ran : (r : ToolResult) → execute db ec ≡ ok r → Ran r
  unfolding execute
  execute→Ran r h = elim (Result-cases (parse_sql_config ec.config)) [
    | inr (e, q) ↦ absurd (ground arith)
    | inl (cfg, q) ↦
        elim (Result-cases (fetch_datasource db.data_source ec.tenant_id cfg.datasource_id)) [
          | inr (e, q1) ↦ absurd (ground arith)
          | inl (ds, q1) ↦
              let (rows, table, found) =
                fetch_datasource-ok db.data_source ec.tenant_id cfg.datasource_id ds q1 in
              record {
                cfg = cfg;
                rows = rows;
                ds = ds;
                parsed = q;
                named = ground arith;
                asked = ground arith;
                table = table;
                found = found;
                supported = ground arith;
                connected = ground arith;
                done = ground arith;
              }
        ]
  ]

  Ran→execute : (r : ToolResult) → Ran r → execute db ec ≡ ok r
  unfolding execute fetch_datasource
  Ran→execute r w =
      rw (w.parsed, w.named, w.asked, w.table, w.found, w.supported, w.connected) w.done

  -- A run has a result exactly if the configuration parses and names a data source and a query, the
  -- table data_source of the tenant's own schema has a row with that id that can be read, its type is
  -- POSTGRESQL in any case, a connection to its address is made, and the query or command that is run
  -- there has that result.
  pub execute-Ran : (r : ToolResult) → (execute db ec ≡ ok r) ↔ Ran r
  execute-Ran r = (execute→Ran r, Ran→execute r)
