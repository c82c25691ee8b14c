-- ===== src/Http/Config.antt =====
-- internal/executor/http/executor.go: httpConfig, parseHTTPConfig and extractSchemaKeys.
pub mod Aliases
use agenthub_skill_runtime.Base.{
  ℕ, ◌+◌, ◌/◌, ◌<◌, Bool, true, false, not, ◌&&◌, List, [], ◌∷◌, ◌++◌, Option, none, some, Bytes,
  codes, is_empty, ltb, equal_fold, if◌then◌else◌,
}
use agenthub_skill_runtime.Base.Int.{ℤ, pos, is_zero, is_positive, magnitude}
use agenthub_skill_runtime.Base.Assoc.{Assoc}
use agenthub_skill_runtime.Executor.{
  Value, null, str, obj, Object, empty, entry, Result, ok, err, ◌>>=◌, prefixed, or_wrap,
  decode_field, set_strings, type_error, string_field, int_field, bool_field, raw_field,
}

-- The struct rawHTTPConfig; a json.RawMessage is `none` where its field is absent.
pub record RawHttpConfig : Type 0 where
  pub url : Bytes
  pub url_template : Bytes
  pub method : Bytes
  pub headers : Assoc Bytes
  pub body_template : Option Value
  pub body_template_sc : Option Value
  pub body : Option Value
  pub timeout_seconds : ℤ
  pub timeout_seconds_sc : ℤ
  pub timeout_ms : ℤ
  pub auth_type : Bytes
  pub auth_type_sc : Bytes
  pub auth_token : Bytes
  pub auth_token_sc : Bytes
  pub use_caller_token : Bool
  pub base_url : Bytes
  pub input_schema : Option Value

pub record HttpConfig : Type 0 where
  pub url : Bytes
  pub url_template : Bytes
  pub method : Bytes
  pub headers : Assoc Bytes
  pub body_template : Bytes
  pub timeout_seconds : ℤ
  pub auth_type : Bytes
  pub auth_token : Bytes
  pub use_caller_token : Bool
  pub base_url : Bytes
  pub allowed_input_keys : Option (List Bytes)

-- json.Unmarshal into rawHTTPConfig
unfoldable pub decode_raw : Object → Result RawHttpConfig
unfolding decode_field
decode_raw o = do
  url ← string_field (codes "url") o
  url_template ← string_field (codes "urlTemplate") o
  method ← string_field (codes "method") o
  headers ← decode_field (codes "headers") set_strings o []
  body_template ← raw_field (codes "bodyTemplate") o
  body_template_sc ← raw_field (codes "body_template") o
  body ← raw_field (codes "body") o
  timeout_seconds ← int_field (codes "timeoutSeconds") o
  timeout_seconds_sc ← int_field (codes "timeout_seconds") o
  timeout_ms ← int_field (codes "timeoutMs") o
  auth_type ← string_field (codes "authType") o
  auth_type_sc ← string_field (codes "auth_type") o
  auth_token ← string_field (codes "authToken") o
  auth_token_sc ← string_field (codes "auth_token") o
  use_caller_token ← bool_field (codes "useCallerToken") o
  base_url ← string_field (codes "baseUrl") o
  input_schema ← raw_field (codes "inputSchema") o
  ok (record {
    url = url;
    url_template = url_template;
    method = method;
    headers = headers;
    body_template = body_template;
    body_template_sc = body_template_sc;
    body = body;
    timeout_seconds = timeout_seconds;
    timeout_seconds_sc = timeout_seconds_sc;
    timeout_ms = timeout_ms;
    auth_type = auth_type;
    auth_type_sc = auth_type_sc;
    auth_token = auth_token;
    auth_token_sc = auth_token_sc;
    use_caller_token = use_caller_token;
    base_url = base_url;
    input_schema = input_schema;
  })

abbrev pub or_else : Bytes → Bytes → Bytes
or_else s t = if is_empty s then t else s

-- The merge of timeoutSeconds, timeout_seconds and timeoutMs.
unfoldable pub merged_timeout : ℤ → ℤ → ℤ → ℤ
merged_timeout camel snake ms =
    let seconds = if is_zero camel then snake else camel in
    let rounded = (magnitude ms + 999) / 1000 in
    if is_zero seconds && is_positive ms
    then (if ltb rounded 1 then pos 1 else pos rounded)
    else seconds

-- The struct field `properties` of a schema: its value, over the fields before it.
abbrev pub set_properties : Value → Option Object → Result (Option Object)
set_properties null p = ok none
set_properties (obj o) p = ok (some o)
set_properties _ p = err type_error

abbrev pub object_keys : Object → List Bytes
object_keys empty = []
object_keys (entry k v o) = k ∷ object_keys o

abbrev pub declared : Result (Option Object) → Option (List Bytes)
declared (err e) = none
declared (ok none) = none
declared (ok (some empty)) = none
declared (ok (some (entry k v o))) = some (object_keys (entry k v o))

unfoldable pub extract_schema_keys : Option Value → Option (List Bytes)
unfolding decode_field
extract_schema_keys (some (obj schema)) =
    declared (decode_field (codes "properties") set_properties schema none)
extract_schema_keys _ = none

-- `marshal` is json.Marshal, whose output json.Compact leaves as it is.
module _ (marshal : Value → Bytes) where
  unfoldable pub normalise_body : Value → Bytes
  normalise_body null = []
  normalise_body (str s) = s
  normalise_body v = marshal v

  abbrev pub is_given : Option Value → Bool
  is_given none = false
  is_given (some null) = false
  is_given (some v) = true

  abbrev pub body_of : Option Value → Bytes
  body_of none = []
  body_of (some v) = normalise_body v

  -- The priority of bodyTemplate, body_template and body.
  unfoldable pub chosen_body : Option Value → Option Value → Option Value → Bytes
  unfolding normalise_body
  chosen_body camel snake alias =
      if is_given camel
      then body_of camel
      else if is_given snake
      then body_of snake
      else if is_given alias
      then body_of alias
      else []

  unfoldable pub from_raw : RawHttpConfig → HttpConfig
  unfolding merged_timeout extract_schema_keys chosen_body
  from_raw r = record {
    url = r.url;
    url_template = r.url_template;
    method = r.method;
    headers = r.headers;
    body_template = chosen_body r.body_template r.body_template_sc r.body;
    timeout_seconds = merged_timeout r.timeout_seconds r.timeout_seconds_sc r.timeout_ms;
    auth_type = or_else r.auth_type r.auth_type_sc;
    auth_token = or_else r.auth_token r.auth_token_sc;
    use_caller_token = r.use_caller_token;
    base_url = r.base_url;
    allowed_input_keys = extract_schema_keys r.input_schema;
  }

  unfoldable pub parse_http_config : Object → Result HttpConfig
  unfolding decode_raw from_raw
  parse_http_config raw =
      or_wrap (codes "unmarshal config: ") (decode_raw raw) >>= λ r. ok (from_raw r)
