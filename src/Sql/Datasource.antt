-- ===== src/Sql/Datasource.antt =====
-- internal/executor/sql/executor.go: datasourceConfig, fetchDatasource and datasourceDSN, with the
-- parts of net/url and net.JoinHostPort that write the URL. The quoting of the schema's name is that
-- of internal/executor/resolver.go: a schema is addressed by its unquoted name.
pub mod Escaping
pub mod Address
use agenthub_skill_runtime.Base.{
  ℕ, ◌/◌, ◌%◌, Bool, true, false, not, ◌&&◌, ◌||◌, List, [], ◌∷◌, ◌++◌, Option, none, some, Bytes,
  codes, is_empty, eqb, contains_byte, ◌==◌, if◌then◌else◌,
}
use agenthub_skill_runtime.Base.Decimal.{itoa}
use agenthub_skill_runtime.Executor.{Error, leaf, wrap, prefixed, quote, Result, ok, err}
use agenthub_skill_runtime.Executor.Resolver.{tenant_schema}
use agenthub_skill_runtime.Http.Template.{is_unreserved, hex}

-- datasourceConfig
pub record DatasourceConfig : Type 0 where
  pub host : Bytes
  pub port : ℕ
  pub database : Bytes
  pub db_user : Bytes
  pub db_password : Bytes
  pub kind : Bytes

-- A row of data_source, with what row.Scan makes of it.
pub record DatasourceRow : Type 0 where
  pub id : Bytes
  pub scanned : Result DatasourceConfig

-- WHERE id = $1; the id is the table's key
unfoldable pub find_datasource : Bytes → List DatasourceRow → Result DatasourceConfig
find_datasource id [] = err (leaf (codes "no rows in result set"))
find_datasource id (row ∷ rows) = if eqb row.id id then row.scanned else find_datasource id rows

abbrev pub read_table : Bytes → Result (List DatasourceRow) → Result DatasourceConfig
read_table id (err e) = err e
read_table id (ok rows) = find_datasource id rows

abbrev pub or_not_found : Bytes → Bytes → Result DatasourceConfig → Result DatasourceConfig
or_not_found tenant_id id (ok ds) = ok ds
or_not_found tenant_id id (err e) = err (
    prefixed
      (codes "datasource "
        ++ (quote id ++ (codes " not found in tenant " ++ (quote tenant_id ++ codes ": "))))
      e)

-- The pool gives the table data_source of a schema by its name.
unfoldable pub fetch_datasource :
    (Bytes → Result (List DatasourceRow)) → Bytes → Bytes → Result DatasourceConfig
unfolding find_datasource
fetch_datasource pool tenant_id id =
    or_not_found tenant_id id (read_table id (pool (tenant_schema tenant_id)))

-- net/url: escape, which keeps the unreserved bytes and those of a set
abbrev pub percent : ℕ → Bytes → Bytes
percent c rest = b'%' ∷ hex (c / 16) ∷ hex (c % 16) ∷ rest

unfoldable pub escape_but : Bytes → Bytes → Bytes
unfolding contains_byte
escape_but keep [] = []
escape_but keep (c ∷ s) =
    let rest = escape_but keep s in
    if is_unreserved c || contains_byte keep c then c ∷ rest else percent c rest

-- What is kept in a user or password, a host and a path.
abbrev pub userinfo_set : Bytes
userinfo_set = codes "$&+,;="

abbrev pub host_set : Bytes
host_set = b'"' ∷ codes "!$&'()*+,;=:[]<>"

abbrev pub path_set : Bytes
path_set = codes "$&+,/:;=@"

-- net.JoinHostPort
abbrev pub join_host_port : Bytes → Bytes → Bytes
join_host_port host port =
    if contains_byte host b':' then b'[' ∷ (host ++ (b']' ∷ b':' ∷ port)) else host ++ b':' ∷ port

-- u.EscapedPath(), with the slash that String puts before it
abbrev pub rooted : Bytes → Bytes
rooted [] = []
rooted (c ∷ s) = if c == b'/' then c ∷ s else b'/' ∷ c ∷ s

abbrev pub escaped_path : Bytes → Bytes
escaped_path path = if eqb path (codes "*") then path else escape_but path_set path

unfoldable pub datasource_dsn : DatasourceConfig → Bytes
unfolding escape_but
datasource_dsn ds =
    codes "postgres://"
    ++ (escape_but userinfo_set ds.db_user
        ++ (b':'
            ∷ (escape_but userinfo_set ds.db_password
                ++ (b'@'
                    ∷ (escape_but host_set (join_host_port ds.host (itoa ds.port))
                        ++ rooted (escaped_path ds.database))))))
