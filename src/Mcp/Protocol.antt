-- ===== src/Mcp/Protocol.antt =====
-- internal/executor/mcp/executor.go: stdioProtocol, JSON-RPC over the pipes of a child process.
-- What the reader yields is a list of lines, with what ctx.Err() says at each and what the line
-- decodes to, and how the stream ends.
pub mod Request
use agenthub_skill_runtime.Base.{
  ℕ, suc, ◌+◌, Bool, true, false, List, [], ◌∷◌, ◌++◌, Option, none, some, Bytes, codes, ◌==◌,
  if◌then◌else◌,
}
use agenthub_skill_runtime.Executor.{
  Object, empty, Error, leaf, prefixed, Result, ok, err, ◌>>=◌, ToolResult, message,
}
use agenthub_skill_runtime.Base.Decimal.{itoa}

-- mcpError; its code is not negative here
pub record McpError : Type 0 where
  pub code : ℕ
  pub text : Bytes

-- mcpRequest; the id is 0, and left out on the wire, for a notification
pub record McpRequest : Type 0 where
  pub id : ℕ
  pub method : Bytes
  pub params : Object

-- mcpResponse
pub record McpResponse : Type 0 where
  pub id : ℕ
  -- none for a nil map
  pub result : Option Object
  pub error : Option McpError

-- A line that the scanner yields: ctx.Err() behind it, and json.Unmarshal of it.
pub record Line : Type 0 where
  pub context : Option Error
  pub decoded : Result McpResponse

-- The end of the stream: ctx.Err() and reader.Err().
pub record Ending : Type 0 where
  pub context : Option Error
  pub scan : Option Error

-- stdioProtocol: the lines that are still to come, what has been written, and the counter. A write
-- of the n-th message may fail.
pub record Protocol : Type 0 where
  pub lines : List Line
  pub ending : Ending
  pub written : List McpRequest
  pub write_error : McpRequest → Option Error
  pub next_id : ℕ

unfoldable pub write : McpRequest → Protocol → Result (Unit {0}) × Protocol
write request p = elim (p.write_error request) [
  | none ↦ (ok tt, record p { written = p.written ++ request ∷ [] })
  | some e ↦ (err (prefixed (codes "write stdio request: ") e), p)
]

abbrev pub closed : Ending → Error
closed e = elim e.context [
  | some x ↦ x
  | none ↦ elim e.scan [
    | some x ↦ prefixed (codes "read stdio response: ") x
    | none ↦ leaf (codes "stdio MCP server closed before responding")
  ]
]

-- for p.reader.Scan() { … }: the result and the lines that are left
unfoldable pub await : ℕ → Ending → List Line → Result McpResponse × List Line
await id ending [] = (err (closed ending), [])
await id ending (line ∷ lines) =
    let rest = await id ending lines in
    elim line.context [
      | some e ↦ (err e, lines)
      | none ↦ elim line.decoded [
        | err e ↦ (err (prefixed (codes "decode stdio response: ") e), lines)
        | ok response ↦ if response.id == id then (ok response, lines) else rest
      ]
    ]

abbrev pub awaited : Result McpResponse × List Line → Protocol → Result McpResponse × Protocol
awaited (r, lines) p = (r, record p { lines = lines })

abbrev pub after_write : ℕ → Result (Unit {0}) × Protocol → Result McpResponse × Protocol
after_write id (err e, p) = (err e, p)
after_write id (ok u, p) = awaited (await id p.ending p.lines) p

unfoldable pub request : Bytes → Object → Protocol → Result McpResponse × Protocol
unfolding write await
request method params p =
    let id = p.next_id + 1 in
    after_write id
      (write (record { id = id; method = method; params = params }) (record p { next_id = id }))

unfoldable pub notification : Bytes → Object → Protocol → Result (Unit {0}) × Protocol
unfolding write
notification method params p = write (record { id = 0; method = method; params = params }) p

abbrev pub with_error : Option McpError → Option Object → ToolResult
with_error none result = record { output = result; error = []; latency_ms = 0 }
with_error (some e) result = record {
  output = none;
  error = codes "mcp error " ++ (itoa e.code ++ (codes ": " ++ e.text));
  latency_ms = 0;
}

unfoldable pub result_from_response : McpResponse → ToolResult
result_from_response response = with_error response.error response.result
