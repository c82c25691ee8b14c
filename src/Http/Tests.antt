-- ===== src/Http/Tests.antt =====
-- The HTTP executor and the network guard at concrete values.
use agenthub_skill_runtime.Base.{
  ℕ, ◌+◌, ◌*◌, ◌-◌, ◌/◌, ◌^◌, ◌≤◌, ◌<◌, ◌≡◌, ◌≢◌, refl, ◌↔◌, ◌⊎◌, Bool, true, false, not, ◌&&◌,
  List, [], ◌∷◌, ◌++◌, Option, none, some, Bytes, codes, all, is_empty, equal_fold, to_upper,
  trim_right_slash, eqb, has_prefix, has_suffix, contains, arith, if◌then◌else◌,
}
use agenthub_skill_runtime.Base.Int.{pos}
use agenthub_skill_runtime.Base.Assoc.{lookup, insert}
use agenthub_skill_runtime.Executor.{
  Value, str, int, Object, empty, entry, field?, ok, ExecutionContext, ToolResult,
}
use agenthub_skill_runtime.Http.Ssrf.{v6, quad, is_blocked_outbound_ip, Url, Syntax, validate_url}
use agenthub_skill_runtime.Http.Ssrf.Ranges.{IsRefused, blocked_iff}
use agenthub_skill_runtime.Http.Ssrf.Urls.{IsPublic, validate_url_iff}
use agenthub_skill_runtime.Http.Template.{
  single, double, render_template, render_template_url, query_escape,
}
use agenthub_skill_runtime.Http.Template.Rendering.{
  Segment, text, hole, spell, fill, render_template-spell,
}
use agenthub_skill_runtime.Http.Query.{
  is_used, is_allowed, query_values, append_unused_input_as_query,
}
use agenthub_skill_runtime.Http.Query.Forwarded.{
  IsSent, lookup-query_values, is_query_byte, append_unused_input-tail,
}
use agenthub_skill_runtime.Http.Config.{HttpConfig}
use agenthub_skill_runtime.Http.Execute.{
  Codec, HttpToolExecutor, Network, Request, build_request, rendered_url, header_get,
  with_authorization, execute,
}
use agenthub_skill_runtime.Http.Execute.Guard.{IsAllowed, build_request-IsAllowed}
use agenthub_skill_runtime.Http.Execute.Timeout.{IsTimeout}
use agenthub_skill_runtime.Http.Execute.Replies.{Went, execute-Went}

abbrev printed : Value → Bytes
printed (str s) = s
printed _ = []

abbrev codec : Codec
codec = record {
  marshal = printed;
  unmarshal = λ s. none;
  sprint = printed;
  status_text = λ status. codes "Status";
}

-- Every text is a URL of one host, which is no address.
abbrev host : Url
host = record { scheme = codes "HTTPS"; host = codes "api.example"; hostname = codes "api.example" }

abbrev syn : Syntax
syn = record { parse_url = λ s. ok host; parse_ip = λ s. none }

abbrev plain : HttpToolExecutor
plain = record { backend_base_url = []; url_validator = none }

abbrev config : Object
config = entry (codes "authToken") (str (codes "k1")) (
    entry (codes "authType") (str (codes "Bearer"))
      (entry (codes "url") (str (codes "https://api.example/{id}")) empty))

abbrev input_object : Object
input_object = entry (codes "id") (str (codes "a b")) empty

abbrev ec : ExecutionContext
ec = record {
  tool_id = codes "t1";
  skill_slug = [];
  tenant_id = codes "acme";
  caller_token = codes "jwt";
  input = input_object;
  config = config;
}

abbrev net : Network
net = record {
  reject = λ r. none;
  send = λ r. ok (record { status_code = 200; body = ok (codes "pong") });
}

abbrev pong : ToolResult
pong = record {
  output = some (
      entry (codes "response") (str (codes "pong"))
        (entry (codes "status_code") (int (pos 200)) empty));
  error = [];
  latency_ms = 0;
}

execute-Went_example : (execute codec syn plain net ec ≡ ok pong) ↔ Went codec syn plain net ec pong
execute-Went_example = execute-Went codec syn plain net ec pong

abbrev cfg : HttpConfig
cfg = record {
  url = codes "https://api.example/{id}";
  url_template = [];
  method = codes "get";
  headers = [];
  body_template = [];
  timeout_seconds = pos 5;
  auth_type = codes "BEARER";
  auth_token = codes "k1";
  use_caller_token = false;
  base_url = [];
  allowed_input_keys = none;
}

abbrev request : Request
request = record {
  method = codes "GET";
  url = codes "https://api.example/a+b";
  headers = (codes "Authorization", codes "Bearer k1") ∷ [];
  body = none;
  timeout = pos 5000000000;
}

build_request-IsAllowed_example :
    (codes "https://api.example/a+b" ≡ rendered_url codec syn plain cfg input_object)
    × IsAllowed codec syn plain (codes "https://api.example/a+b")
    × IsTimeout (pos 5) (pos 5000000000)
unfolding build_request agenthub_skill_runtime.Http.Execute.guard_url
    agenthub_skill_runtime.Http.Execute.is_trusted_backend trim_right_slash
    agenthub_skill_runtime.Http.Execute.validator validate_url eqb
    agenthub_skill_runtime.Base.to_lower has_suffix agenthub_skill_runtime.Http.Execute.method_of
    rendered_url with_authorization agenthub_skill_runtime.Http.Execute.request_body to_upper
    equal_fold append_unused_input_as_query insert is_used
    agenthub_skill_runtime.Http.Execute.set_headers contains
    agenthub_skill_runtime.Http.Execute.canonical_from
    agenthub_skill_runtime.Http.Execute.resolve_url render_template_url
build_request-IsAllowed_example = build_request-IsAllowed codec syn plain ec cfg request refl

validate_url_iff_example :
    (validate_url syn (codes "HTTPS://api.example") ≡ ok tt)
    ↔ ((u : Url) × (ok host ≡ ok u) × IsPublic syn u)
validate_url_iff_example = validate_url_iff syn (codes "HTTPS://api.example")

-- The metadata address of the cloud, in an IPv6 address.
abbrev metadata : ℕ
metadata = 0xffff * 2 ^ 32 + quad 169 254 169 254

blocked_iff_example : (is_blocked_outbound_ip (some (v6 metadata)) ≡ true) ↔ IsRefused (v6 metadata)
blocked_iff_example = blocked_iff (v6 metadata) (omega arith)

abbrev template : List Segment
template = text (codes "/pets/") ∷ hole double (codes "id") ∷ hole single (codes "id") ∷ []

render_template-spell_example :
    (render_template printed (spell template) input_object ≡ fill printed input_object template)
    × (render_template_url printed (spell template) input_object
        ≡ fill (λ v. query_escape (printed v)) input_object template)
unfolding field? eqb
render_template-spell_example =
    render_template-spell printed input_object template (refl, tt)
      (refl, ((refl, ground arith), ((refl, ground arith), tt)))

lookup-query_values_example :
    (lookup (codes "id") (query_values printed (codes "/pets/{{name}}") none input_object)
      ≡ some (codes "a b"))
    ↔ IsSent printed (codes "/pets/{{name}}") none input_object (codes "id") (codes "a b")
lookup-query_values_example =
    lookup-query_values printed (codes "/pets/{{name}}") none input_object (codes "id")
      (codes "a b")

append_unused_input-tail_example :
    (append_unused_input_as_query printed (codes "/pets") (codes "/pets") input_object none
      ≡ codes "/pets")
    ⊎ ((sep : ℕ) × (tail : Bytes) × (append_unused_input_as_query printed
            (codes "/pets")
            (codes "/pets")
            input_object
            none
          ≡ codes "/pets" ++ (sep ∷ tail))
        × ((sep ≡ b'?') ⊎ (sep ≡ b'&'))
        × (all is_query_byte tail ≡ true))
unfolding query_values is_used contains is_allowed
append_unused_input-tail_example =
    append_unused_input-tail printed (codes "/pets") (codes "/pets") input_object none
      (ground arith)
