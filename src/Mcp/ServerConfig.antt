-- ===== src/Mcp/ServerConfig.antt =====
-- internal/executor/mcp/executor.go: mcpServerConfig and fetchServerConfig. A jsonb column is the value
-- that it holds; the tables of the pool are lists of rows.
use agenthub_skill_runtime.Base.{
  List, [], ◌∷◌, ◌++◌, Option, none, some, Bytes, codes, eqb, if◌then◌else◌,
}
use agenthub_skill_runtime.Base.Assoc.{Assoc}
use agenthub_skill_runtime.Executor.{
  Value, null, arr, obj, Values, nil, cons, empty, leaf, quote, Result, ok, err, ◌>>=◌, or_wrap,
  type_error, set_string, set_strings,
}
use agenthub_skill_runtime.Executor.Resolver.{tenant_schema}

-- mcpServerConfig
pub record McpServerConfig : Type 0 where
  pub transport_type : Bytes
  pub http_base_url : Bytes
  pub command : Bytes
  pub args : List Bytes
  pub env : Assoc Bytes

-- The columns that are read of a row of mcp_server_config, with their NULLs.
pub record Columns : Type 0 where
  pub transport_type : Bytes
  pub http_base_url : Option Bytes
  pub command : Option Bytes
  pub args : Option Value
  pub env : Option Value

-- A row, with what row.Scan makes of its columns.
pub record ServerRow : Type 0 where
  pub id : Bytes
  pub scanned : Result Columns

-- COALESCE
abbrev pub coalesce {ℓ} : {A : Type ℓ} → Option A → A → A
coalesce none other = other
coalesce (some a) other = a

-- json.Unmarshal into []string
unfoldable pub strings_from : Values → Result (List Bytes)
strings_from nil = ok []
strings_from (cons v vs) = set_string v [] >>= λ s. strings_from vs >>= λ more. ok (s ∷ more)

abbrev pub set_string_list : Value → Result (List Bytes)
set_string_list null = ok []
set_string_list (arr vs) = strings_from vs
set_string_list _ = err type_error

-- WHERE id = $1; the id is the table's key
unfoldable pub find_server : Bytes → List ServerRow → Result Columns
find_server id [] = err (leaf (codes "no rows in result set"))
find_server id (row ∷ rows) = if eqb row.id id then row.scanned else find_server id rows

abbrev pub not_found_text : Bytes → Bytes → Bytes
not_found_text id tenant_id =
    codes "mcp_server_config "
    ++ (quote id ++ (codes " not found in tenant " ++ (quote tenant_id ++ codes ": ")))

-- The columns decoded.
unfoldable pub server_of : Columns → Result McpServerConfig
unfolding strings_from
server_of c = do
  args ← or_wrap (codes "decode MCP args: ") (set_string_list (coalesce c.args (arr nil)))
  env ← or_wrap (codes "decode MCP env: ") (set_strings (coalesce c.env (obj empty)) [])
  ok (record {
    transport_type = c.transport_type;
    http_base_url = coalesce c.http_base_url [];
    command = coalesce c.command [];
    args = args;
    env = env;
  })

unfoldable pub fetch_server_config :
    (Bytes → Result (List ServerRow)) → Bytes → Bytes → Result McpServerConfig
unfolding find_server
fetch_server_config pool tenant_id id =
    or_wrap (not_found_text id tenant_id)
      (pool (tenant_schema tenant_id) >>= λ rows. find_server id rows)
    >>= λ columns. server_of columns
