-- ===== src/Http/Execute/Replies.antt =====
-- What a successful call of the HTTP executor has gone through.
use agenthub_skill_runtime.Base.{
  some, ◌↔◌, ap, sym, ◌<◌, ◌≡◌, [], none, Bytes, codes, arith, Option-cases, inl, inr,
}
use agenthub_skill_runtime.Base.Int.{pos}
use agenthub_skill_runtime.Executor.{
  int, empty, entry, ok, ◌>>=◌, ◌>>◌, or_wrap, Result-cases, ExecutionContext, ToolResult,
}
use agenthub_skill_runtime.Http.Ssrf.{Syntax}
use agenthub_skill_runtime.Http.Config.{HttpConfig, parse_http_config}
use agenthub_skill_runtime.Http.Execute.{
  Codec, HttpToolExecutor, Request, Response, Network, build_request, payload, checked,
  read_response, execute,
}
use agenthub_skill_runtime.Http.Execute.Guard.{IsAllowed, build_request-IsAllowed}

module _ (codec : Codec) (syn : Syntax) (e : HttpToolExecutor) (net : Network)
    (ec : ExecutionContext) where
  -- A call that went through: its configuration, its request and the response.
  pub record Went (r : ToolResult) : Type 0 where
    pub cfg : HttpConfig
    pub request : Request
    pub response : Response
    pub body : Bytes
    pub parsed : parse_http_config codec.marshal ec.config ≡ ok cfg
    pub built : build_request codec syn e ec cfg ≡ ok request
    pub accepted : net.reject request ≡ none
    pub sent : net.send request ≡ ok response
    pub read : response.body ≡ ok body
    pub status : response.status_code < 400
    pub allowed : IsAllowed codec syn e request.url
    pub result : r ≡ record {
      output = some (
          entry
            (codes "response")
            (payload codec syn body)
            (entry (codes "status_code") (int (pos response.status_code)) empty));
      error = [];
      latency_ms = 0;
    }

  -- The parts of `Went`, one bind at a time.
  read_response-ok :
      (resp : Response) (r : ToolResult)
      → read_response codec syn resp ≡ ok r
      → (body : Bytes) × (resp.body ≡ ok body)
        × (resp.status_code < 400)
        × (r ≡ record {
          output = some (
              entry
                (codes "response")
                (payload codec syn body)
                (entry (codes "status_code") (int (pos resp.status_code)) empty));
          error = [];
          latency_ms = 0;
        })
  unfolding read_response
  read_response-ok resp r h = elim (Result-cases resp.body) [
    | inl (body, p) ↦ (body, p, ground arith, ground arith)
    | inr (x, p) ↦ absurd (ground arith)
  ]

  sent-ok :
      (cfg : HttpConfig) (request : Request) (r : ToolResult)
      → parse_http_config codec.marshal ec.config ≡ ok cfg
      → build_request codec syn e ec cfg ≡ ok request
      → (checked codec syn (net.reject request)
          >> (or_wrap (codes "http executor: request failed: ") (net.send request) >>= λ resp.
              read_response codec syn resp))
        ≡ ok r
      → Went r
  sent-ok cfg request r parsed built h = elim (Option-cases (net.reject request)) [
    | inr (x, rejected) ↦ absurd (ground arith)
    | inl accepted ↦ elim (Result-cases (net.send request)) [
      | inr (x, failed) ↦ absurd (ground arith)
      | inl (response, sent) ↦
          let (body, read, status, result) = read_response-ok response r (ground arith) in
          record {
            cfg = cfg;
            request = request;
            response = response;
            body = body;
            parsed = parsed;
            built = built;
            accepted = accepted;
            sent = sent;
            read = read;
            status = status;
            allowed = (build_request-IsAllowed codec syn e ec cfg request built).1;
            result = result;
          }
    ]
  ]

  execute-ok : (r : ToolResult) → execute codec syn e net ec ≡ ok r → Went r
  unfolding execute
  execute-ok r h = elim (Result-cases (parse_http_config codec.marshal ec.config)) [
    | inr (x, failed) ↦ absurd (ground arith)
    | inl (cfg, parsed) ↦ elim (Result-cases (build_request codec syn e ec cfg)) [
      | inr (x, failed) ↦ absurd (ground arith)
      | inl (request, built) ↦ sent-ok cfg request r parsed built (ground arith)
    ]
  ]

  ok-read_response :
      (resp : Response) (body : Bytes)
      → resp.body ≡ ok body
      → resp.status_code < 400
      → read_response codec syn resp
        ≡ ok (record {
          output = some (
              entry
                (codes "response")
                (payload codec syn body)
                (entry (codes "status_code") (int (pos resp.status_code)) empty));
          error = [];
          latency_ms = 0;
        })
  unfolding read_response
  ok-read_response resp body read status = ground (arith, read, status)

  ok-execute : (r : ToolResult) → Went r → execute codec syn e net ec ≡ ok r
  unfolding execute
  ok-execute r w =
      let answer = ok-read_response w.response w.body w.read w.status in
      rw (w.parsed, w.built, w.accepted, w.sent, answer) (ap ok (sym w.result))

  -- The executor succeeds with a result exactly if the configuration parses, the request is built and
  -- passes the guard, the network answers it and the status is below 400; the output is then the
  -- payload and the status code.
  pub execute-Went : (r : ToolResult) → (execute codec syn e net ec ≡ ok r) ↔ Went r
  execute-Went r = (execute-ok r, ok-execute r)
