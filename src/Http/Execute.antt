-- ===== src/Http/Execute.antt =====
-- internal/executor/http/executor.go: HTTPToolExecutor.Execute, as the request that it builds and
-- what it makes of the response. The network is a function from requests to responses.
pub mod Timeout
pub mod Guard
pub mod Replies
use agenthub_skill_runtime.Base.{
  ℕ, ◌+◌, ◌*◌, Bool, true, false, not, ◌&&◌, ◌||◌, List, [], ◌∷◌, ◌++◌, Option, none, some, Bytes,
  codes, is_empty, eqb, has_prefix, trim_right_slash, to_upper, equal_fold, upper, lower, leb, ltb,
  ◌==◌, if◌then◌else◌,
}
use agenthub_skill_runtime.Base.Int.{ℤ, int64_of, pos, is_positive, magnitude}
use agenthub_skill_runtime.Base.Decimal.{itoa}
use agenthub_skill_runtime.Base.Assoc.{Assoc, lookup, insert}
use agenthub_skill_runtime.Executor.{
  Value, null, str, int, Object, empty, entry, Error, leaf, wrap, prefixed, Result, ok, err, ◌>>=◌,
  ◌>>◌, require, or_wrap, ExecutionContext, ToolResult,
}
use agenthub_skill_runtime.Http.Ssrf.{Syntax, validate_url}
use agenthub_skill_runtime.Http.Template.{render_template, render_template_url}
use agenthub_skill_runtime.Http.Query.{append_unused_input_as_query}
use agenthub_skill_runtime.Http.Config.{HttpConfig, or_else, parse_http_config}

-- encoding/json, fmt's %v and http.StatusText
pub record Codec : Type 0 where
  pub marshal : Value → Bytes
  pub unmarshal : Bytes → Option Value
  pub sprint : Value → Bytes
  pub status_text : ℕ → Bytes

pub record HttpToolExecutor : Type 0 where
  pub backend_base_url : Bytes
  pub url_validator : Option (Bytes → Result (Unit {0}))

-- http.Header: textproto.CanonicalMIMEHeaderKey of the keys
unfoldable pub canonical_from : Bool → Bytes → Bytes
canonical_from start [] = []
canonical_from start (c ∷ s) = (if start then upper c else lower c) ∷ canonical_from (c == b'-') s

abbrev pub canonical : Bytes → Bytes
canonical k = canonical_from true k

-- req.Header.Set(k, v), req.Header.Get(k)
abbrev pub header_set : Bytes → Bytes → Assoc Bytes → Assoc Bytes
header_set k v h = insert (canonical k) v h

abbrev pub header_get : Bytes → Assoc Bytes → Option Bytes
header_get k h = lookup (canonical k) h

pub record Request : Type 0 where
  pub method : Bytes
  pub url : Bytes
  pub headers : Assoc Bytes
  pub body : Option Bytes
  -- in nanoseconds
  pub timeout : ℤ

pub record Response : Type 0 where
  pub status_code : ℕ
  pub body : Result Bytes

-- What the world answers: http.NewRequestWithContext's check of a request, and client.Do.
pub record Network : Type 0 where
  pub reject : Request → Option Error
  pub send : Request → Result Response

module _ (codec : Codec) (syn : Syntax) where
  -- The URL template with its base, "" where none is configured.
  unfoldable pub resolve_url : HttpToolExecutor → HttpConfig → Bytes
  resolve_url e cfg =
      let raw_url = or_else cfg.url cfg.url_template in
      let base = or_else cfg.base_url e.backend_base_url in
      if has_prefix raw_url (codes "http") || is_empty base
      then raw_url
      else trim_right_slash base ++ raw_url

  abbrev pub takes_query : Bytes → Bool
  takes_query method =
      eqb method (codes "GET") || eqb method (codes "DELETE") || eqb method (codes "HEAD")

  unfoldable pub method_of : HttpConfig → Bytes
  method_of cfg = or_else (to_upper cfg.method) (codes "GET")

  unfoldable pub rendered_url : HttpToolExecutor → HttpConfig → Object → Bytes
  rendered_url e cfg input =
      let raw_url = resolve_url e cfg in
      let rendered = render_template_url codec.sprint raw_url input in
      if takes_query (method_of cfg)
      then append_unused_input_as_query codec.sprint raw_url rendered input cfg.allowed_input_keys
      else rendered

  unfoldable pub is_trusted_backend : HttpToolExecutor → Bytes → Bool
  is_trusted_backend e url =
      let trusted = trim_right_slash e.backend_base_url in
      not (is_empty trusted) && (has_prefix url (trusted ++ codes "/") || eqb url trusted)

  unfoldable pub validator : HttpToolExecutor → Bytes → Result (Unit {0})
  validator e url = elim e.url_validator [
    | none ↦ validate_url syn url
    | some validate ↦ validate url
  ]

  abbrev pub blocked : Result (Unit {0}) → Result (Unit {0})
  blocked (ok u) = ok u
  blocked (err e) = err (wrap (codes "http executor: blocked URL (") e (codes ")"))

  unfoldable pub guard_url : HttpToolExecutor → Bytes → Result (Unit {0})
  guard_url e url = if is_trusted_backend e url then ok tt else blocked (validator e url)

  unfoldable pub set_headers : Object → Assoc Bytes → Assoc Bytes → Assoc Bytes
  set_headers input [] h = h
  set_headers input ((k, v) ∷ more) h =
      set_headers input more (header_set k (render_template codec.sprint v input) h)

  abbrev pub with_content_type : Option Bytes → Assoc Bytes → Assoc Bytes
  with_content_type none h = h
  with_content_type (some body) h = elim (header_get (codes "Content-Type") h) [
    | none ↦ header_set (codes "Content-Type") (codes "application/json") h
    | some v ↦
        if is_empty v then header_set (codes "Content-Type") (codes "application/json") h else h
  ]

  unfoldable pub with_authorization : HttpConfig → Bytes → Assoc Bytes → Assoc Bytes
  with_authorization cfg caller_token h =
      if cfg.use_caller_token && not (is_empty caller_token)
      then header_set (codes "Authorization") (codes "Bearer " ++ caller_token) h
      else if equal_fold cfg.auth_type (codes "bearer") && not (is_empty cfg.auth_token)
      then header_set (codes "Authorization") (codes "Bearer " ++ cfg.auth_token) h
      else if equal_fold cfg.auth_type (codes "basic") && not (is_empty cfg.auth_token)
      then header_set (codes "Authorization") (codes "Basic " ++ cfg.auth_token) h
      else h

  -- time.Duration(timeoutSeconds) * time.Second: nanoseconds in an int64
  abbrev pub timeout_of : ℤ → ℤ
  timeout_of seconds =
      int64_of ((if is_positive seconds then magnitude seconds else 30) * 1000000000)

  unfoldable pub request_body : HttpConfig → Object → Option Bytes
  request_body cfg input =
      if is_empty cfg.body_template
      then none
      else some (render_template codec.sprint cfg.body_template input)

  -- The request of Execute, up to the call of http.NewRequestWithContext.
  unfoldable pub build_request : HttpToolExecutor → ExecutionContext → HttpConfig → Result Request
  build_request e ec cfg = do
    require (not (is_empty (or_else cfg.url cfg.url_template)))
        (leaf (codes "http executor: url is required"))
    let url = rendered_url e cfg ec.input
    guard_url e url
    let body = request_body cfg ec.input
    ok (record {
      method = method_of cfg;
      url = url;
      headers =
          with_authorization cfg ec.caller_token
            (with_content_type body (set_headers ec.input cfg.headers []));
      body = body;
      timeout = timeout_of cfg.timeout_seconds;
    })

  abbrev pub payload : Bytes → Value
  payload bytes = elim (codec.unmarshal bytes) [ none ↦ str bytes | some v ↦ v ]

  abbrev pub body_text : Value → Bytes
  body_text null = []
  body_text (str s) = s
  body_text v = codec.marshal v

  unfoldable pub failure_text : ℕ → Value → Bytes
  failure_text status v =
      let msg = codes "HTTP " ++ (itoa status ++ (codes " " ++ codec.status_text status)) in
      let body = body_text v in if is_empty body then msg else msg ++ (codes ": " ++ body)

  unfoldable pub read_response : Response → Result ToolResult
  unfolding failure_text
  read_response resp = or_wrap (codes "http executor: read response body: ") resp.body >>= λ bytes.
      let v = payload bytes in
      if leb 400 resp.status_code
      then err (leaf (codes "http executor: " ++ failure_text resp.status_code v))
      else ok (record {
        output = some (
            entry (codes "response") v
              (entry (codes "status_code") (int (pos resp.status_code)) empty));
        error = [];
        latency_ms = 0;
      })

  abbrev pub checked : Option Error → Result (Unit {0})
  checked none = ok tt
  checked (some e) = err (prefixed (codes "http executor: build request: ") e)

  unfoldable pub execute : HttpToolExecutor → Network → ExecutionContext → Result ToolResult
  execute e net ec = do
    cfg ←
        or_wrap (codes "http executor: parse config: ") (parse_http_config codec.marshal ec.config)
    req ← build_request e ec cfg
    checked (net.reject req)
    resp ← or_wrap (codes "http executor: request failed: ") (net.send req)
    read_response resp
