-- ===== src/Sql/Tests.antt =====
-- The SQL executor at concrete templates, cursors and configurations.
use agenthub_skill_runtime.Base.{
  some, ℕ, ◌≡◌, refl, ◌↔◌, true, List, [], ◌∷◌, none, codes, eqb, if◌then◌else◌, arith,
}
use agenthub_skill_runtime.Base.Int.{pos}
use agenthub_skill_runtime.Executor.{
  bool, str, int, Object, empty, entry, leaf, ok, err, ExecutionContext, ToolResult,
}
use agenthub_skill_runtime.Sql.Template.{max_sql_param_index, render_input_template}
use agenthub_skill_runtime.Sql.Template.Numbering.{
  Segment, text, quoted, spell, numbered, arguments, render_input_template-spell,
}
use agenthub_skill_runtime.Sql.Execute.{Rows, Row, collect_rows, Database, execute}
use agenthub_skill_runtime.Sql.Execute.Access.{Ran, execute-Ran}
use agenthub_skill_runtime.Sql.Datasource.{DatasourceConfig, datasource_dsn}
use agenthub_skill_runtime.Sql.Datasource.Address.{Says, datasource_dsn-Says}
use agenthub_skill_runtime.Sql.Execute.Limit.{Collected, collect_rows-Collected}

abbrev template : List Segment
template =
    text (codes "SELECT * FROM t WHERE a = ") ∷ quoted (codes "a") ∷ text (codes " AND b = $1") ∷ []

abbrev values : Object
values = entry (codes "a") (str (codes "x' OR 1")) empty

render_input_template-spell_example :
    render_input_template (spell template) values
    ≡ (numbered (max_sql_param_index (spell template)) template, arguments values template)
render_input_template-spell_example =
    render_input_template-spell template values (refl, ((ground arith, refl), (refl, tt)))

abbrev rows : Rows
rows = record {
  fields = codes "n" ∷ [];
  rows = ok (bool true ∷ []) ∷ err (leaf (codes "bad row")) ∷ [];
  error = none;
}

abbrev first_rows : List Row
first_rows = ((codes "n", bool true) ∷ []) ∷ []

collect_rows-Collected_example :
    Collected
      (codes "n" ∷ [])
      1
      (ok (bool true ∷ []) ∷ err (leaf (codes "bad row")) ∷ [])
      first_rows
    × (rows.error ≡ none)
unfolding collect_rows agenthub_skill_runtime.Base.Assoc.insert
collect_rows-Collected_example = collect_rows-Collected rows 1 first_rows refl

-- A password that looks like the rest of a URL.
abbrev source : DatasourceConfig
source = record {
  host = codes "db";
  port = 5432;
  database = codes "shop";
  db_user = codes "bob";
  db_password = codes "p@evil/x?";
  kind = codes "postgresql";
}

datasource_dsn-Says_example : Says source (datasource_dsn source)
datasource_dsn-Says_example =
    datasource_dsn-Says source (omega arith) (omega arith) (omega arith) (omega arith)

abbrev database : Database
database = record {
  data_source = λ schema.
      if eqb schema (codes "ah_acme")
      then ok (record { id = codes "d1"; scanned = ok source } ∷ [])
      else err (leaf []);
  connect = λ dsn. ok tt;
  query = λ dsn query args. ok rows;
  exec = λ dsn query args. ok 3;
}

abbrev ec : ExecutionContext
ec = record {
  tool_id = codes "t1";
  skill_slug = [];
  tenant_id = codes "acme";
  caller_token = [];
  input = empty;
  config = entry (codes "datasource_id") (str (codes "d1")) (
      entry (codes "operation") (str (codes "delete"))
        (entry (codes "query") (str (codes "DELETE FROM t")) empty));
}

abbrev deleted : ToolResult
deleted = record {
  output = some (entry (codes "rowsAffected") (int (pos 3)) empty);
  error = [];
  latency_ms = 0;
}

execute-Ran_example : (execute database ec ≡ ok deleted) ↔ Ran database ec deleted
execute-Ran_example = execute-Ran database ec deleted

was_deleted : execute database ec ≡ ok deleted
unfolding execute agenthub_skill_runtime.Sql.Execute.parse_sql_config
    agenthub_skill_runtime.Base.equal_fold agenthub_skill_runtime.Sql.Datasource.fetch_datasource
    agenthub_skill_runtime.Executor.Resolver.tenant_schema agenthub_skill_runtime.Sql.Execute.run
    agenthub_skill_runtime.Base.to_upper
was_deleted = refl
