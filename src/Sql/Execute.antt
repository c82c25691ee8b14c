-- ===== src/Sql/Execute.antt =====
-- internal/executor/sql/executor.go: SQLToolExecutor.Execute and collectRows. The databases are a
-- record of functions.
pub mod Limit
pub mod Errors
pub mod Access
use agenthub_skill_runtime.Base.{
  ℕ, zero, suc, ◌+◌, Bool, true, false, not, ◌&&◌, ◌||◌, List, [], ◌∷◌, ◌++◌, Option, none, some,
  Bytes, codes, is_empty, eqb, to_upper, equal_fold, length, leb, if◌then◌else◌,
}
use agenthub_skill_runtime.Base.Assoc.{insert}
use agenthub_skill_runtime.Base.Int.{ℤ, pos, is_positive, magnitude}
use agenthub_skill_runtime.Executor.{
  Value, Values, nil, cons, obj, arr, int, Object, empty, entry, Error, leaf, prefixed, permanentf,
  quote, Result, ok, err, ◌>>=◌, ◌>>◌, require, or_wrap, ToolResult, ExecutionContext, string_field,
  int_field, decode_field,
}
use agenthub_skill_runtime.Sql.Datasource.{
  DatasourceConfig, DatasourceRow, fetch_datasource, datasource_dsn,
}
use agenthub_skill_runtime.Sql.Template.{render_input_template}

-- sqlConfig
pub record SqlConfig : Type 0 where
  pub datasource_id : Bytes
  pub query : Bytes
  pub operation : Bytes
  pub max_rows : ℤ

unfoldable pub parse_sql_config : Object → Result SqlConfig
unfolding decode_field
parse_sql_config raw = or_wrap (codes "unmarshal config: ") do
  datasource_id ← string_field (codes "datasource_id") raw
  query ← string_field (codes "query") raw
  operation ← string_field (codes "operation") raw
  max_rows ← int_field (codes "max_rows") raw
  ok (record {
    datasource_id = datasource_id;
    query = query;
    operation = operation;
    max_rows = max_rows;
  })

-- pgx.Rows: for each row what rows.Values() gives, the names of the fields, and rows.Err() at the end
-- or where the reading stops.
pub record Rows : Type 0 where
  pub fields : List Bytes
  pub rows : List (Result (List Value))
  pub error : Option Error

-- row[name] = value for the fields in order; a row has a value for each field
unfoldable pub to_object : List Bytes → List Value → List (Bytes × Value) → List (Bytes × Value)
to_object [] values done = done
to_object (name ∷ names) [] done = done
to_object (name ∷ names) (v ∷ values) done = to_object names values (insert name v done)

abbrev pub Row : Type 0
Row = List (Bytes × Value)

-- The loop of collectRows, with the rows so far.
unfoldable pub collect_from :
    List Bytes → ℕ → List Row → List (Result (List Value)) → Result (List Row)
unfolding to_object
collect_from fields max_rows done [] = ok done
collect_from fields max_rows done (row ∷ rows) =
    if leb max_rows (length done)
    then ok done
    else row >>= λ values.
        collect_from fields max_rows (done ++ to_object fields values [] ∷ []) rows

abbrev pub with_error : List Row → Option Error → Result (List Row)
with_error done none = ok done
with_error done (some e) = err e

-- collectRows; its callers drop the rows where it returns an error
unfoldable pub collect_rows : Rows → ℕ → Result (List Row)
unfolding collect_from
collect_rows r max_rows =
    collect_from r.fields max_rows [] r.rows >>= λ done. with_error done r.error

-- The pool of the service, with the table data_source of a schema by its name, and pgx: a connection
-- to the address of a data source, its queries and its commands.
pub record Database : Type 0 where
  pub data_source : Bytes → Result (List DatasourceRow)
  pub connect : Bytes → Result (Unit {0})
  pub query : Bytes → Bytes → List Value → Result Rows
  pub exec : Bytes → Bytes → List Value → Result ℕ

-- A row as a JSON object, its keys in the order in which they were assigned.
unfoldable pub row_object : Row → Object
row_object [] = empty
row_object ((k, v) ∷ row) = entry k v (row_object row)

unfoldable pub row_values : List Row → Values
unfolding row_object
row_values [] = nil
row_values (row ∷ rows) = cons (obj (row_object row)) (row_values rows)

abbrev pub is_select : Bytes → Bool
is_select operation = is_empty operation || eqb operation (codes "SELECT")

abbrev pub row_limit : ℤ → ℕ
row_limit max_rows = if is_positive max_rows then magnitude max_rows else 100

abbrev pub output : Object → ToolResult
output o = record { output = some o; error = []; latency_ms = 0 }

-- The dash in UTF-8.
abbrev pub no_datasource : Error
no_datasource = permanentf (
    codes "sql executor: datasource not configured "
    ++ (226 ∷ 128 ∷ 148 ∷ codes " add a datasource_id to the tool config"))

abbrev pub no_query : Error
no_query = permanentf (codes "sql executor: query is required")

-- The query or the command, on an open connection.
unfoldable pub run : Database → Bytes → SqlConfig → Object → Result ToolResult
run db dsn cfg input =
    let (text, args) = render_input_template cfg.query input in
    if is_select (to_upper cfg.operation)
    then (or_wrap (codes "sql executor: query error: ") (db.query dsn text args) >>= λ rows.
        or_wrap (codes "sql executor: collect rows: ") (collect_rows rows (row_limit cfg.max_rows))
        >>= λ results. ok (output (entry (codes "rows") (arr (row_values results)) empty)))
    else (or_wrap (codes "sql executor: exec error: ") (db.exec dsn text args) >>= λ n.
        ok (output (entry (codes "rowsAffected") (int (pos n)) empty)))

unfoldable pub execute : Database → ExecutionContext → Result ToolResult
execute db ec = do
  cfg ← or_wrap (codes "sql executor: parse config: ") (parse_sql_config ec.config)
  require (not (is_empty cfg.datasource_id)) no_datasource
  require (not (is_empty cfg.query)) no_query
  ds ←
      or_wrap (codes "sql executor: fetch datasource: ")
        (fetch_datasource db.data_source ec.tenant_id cfg.datasource_id)
  require (equal_fold ds.kind (codes "POSTGRESQL")) (
      leaf (
        codes "sql executor: unsupported datasource type "
        ++ (quote ds.kind ++ codes " (only POSTGRESQL is supported)")))
  let dsn = datasource_dsn ds
  or_wrap (codes "sql executor: connect to datasource: ") (db.connect dsn)
  run db dsn cfg ec.input
