-- ===== src/Mcp/Protocol/Request.antt =====
-- Which response answers a request.
use agenthub_skill_runtime.Base.{
  ℕ, ◌+◌, ◌≡◌, ◌≢◌, ap, ◌∙◌, ◌↔◌, List, [], ◌∷◌, ◌++◌, none, Bytes, ◌==◌, All, arith, Bool-cases,
  Option-cases, inl, inr,
}
use agenthub_skill_runtime.Executor.{Object, ok, Result-cases}
use agenthub_skill_runtime.Mcp.Protocol.{
  McpRequest, McpResponse, Line, Ending, Protocol, write, await, awaited, request,
}

-- A line that does not answer request `id`, and at which the context is still live.
abbrev pub IsSkipped : ℕ → Line → Type 0
IsSkipped id line =
    (line.context ≡ none) × ((r : McpResponse) × (line.decoded ≡ ok r) × (r.id ≢ id))

-- The lines up to the answer, the answer's line, and the lines behind it.
pub record Answered (id : ℕ) (lines : List Line) (response : McpResponse) (left : List Line)
    : Type 0 where
  pub skipped : List Line
  pub line : Line
  pub split : lines ≡ skipped ++ (line ∷ left)
  pub others : All (IsSkipped id) skipped
  pub live : line.context ≡ none
  pub decoded : line.decoded ≡ ok response
  pub same : response.id ≡ id

skip :
    (id : ℕ) (line : Line) (lines : List Line) (response : McpResponse) (left : List Line)
    → IsSkipped id line
    → Answered id lines response left
    → Answered id (line ∷ lines) response left
skip id line lines response left s a = record {
  skipped = line ∷ a.skipped;
  line = a.line;
  split = ap (λ ls. line ∷ ls) a.split;
  others = (s, a.others);
  live = a.live;
  decoded = a.decoded;
  same = a.same;
}

await-Answered :
    (id : ℕ) (ending : Ending) (lines : List Line) (response : McpResponse) (left : List Line)
    → await id ending lines ≡ (ok response, left)
    → Answered id lines response left
unfolding await
await-Answered id ending [] response left h = absurd (ground arith)
await-Answered id ending (line ∷ lines) response left h = elim (Option-cases line.context) [
  | inr (x, p) ↦ absurd (ground arith)
  | inl live ↦ elim (Result-cases line.decoded) [
    | inr (x, p) ↦ absurd (ground arith)
    | inl (r, p) ↦ elim (Bool-cases (r.id == id)) [
      | inl same ↦ record {
        skipped = [];
        line = line;
        split = ground arith;
        others = tt;
        live = live;
        decoded = ground arith;
        same = ground arith;
      }
      | inr other ↦
          skip id line lines response left (live, (r, p, ground arith))
            (await-Answered id ending lines response left (ground arith))
    ]
  ]
]

await-append :
    (id : ℕ) (ending : Ending) (skipped : List Line) (line : Line) (left : List Line)
    (response : McpResponse)
    → All (IsSkipped id) skipped
    → line.context ≡ none
    → line.decoded ≡ ok response
    → response.id ≡ id
    → await id ending (skipped ++ (line ∷ left)) ≡ (ok response, left)
unfolding await
await-append id ending [] line left response h live decoded same = ground arith
await-append id ending (s ∷ skipped) line left response ((live', (r, d, other)), h) live decoded
      same =
    ground (arith, await-append id ending skipped line left response h live decoded same)

-- The request that is written, and the protocol behind the write.
abbrev pub numbered : Bytes → Object → Protocol → McpRequest
numbered method params p = record { id = p.next_id + 1; method = method; params = params }

abbrev pub sent : Bytes → Object → Protocol → Protocol
sent method params p = record p {
  next_id = p.next_id + 1;
  written = p.written ++ numbered method params p ∷ [];
}

request_of_write :
    (method : Bytes) (params : Object) (p : Protocol)
    → p.write_error (numbered method params p) ≡ none
    → request method params p
      ≡ awaited (await (p.next_id + 1) p.ending p.lines) (sent method params p)
request_of_write method params p w = unfold request write in rw (w, write)

-- If the write succeeds, a request has a result exactly if some line has the request's own id, the
-- counter plus one, and every line before it decodes and has another id, with the context live at
-- each; the first such line is the answer, the lines up to it are consumed, the request is written
-- behind what was written before, and the counter is raised.
pub request_iff :
    (method : Bytes) (params : Object) (p : Protocol) (response : McpResponse) (left : List Line)
    → p.write_error (numbered method params p) ≡ none
    → (request method params p ≡ (ok response, record (sent method params p) { lines = left }))
      ↔ Answered (p.next_id + 1) p.lines response left
request_iff method params p response left w = (to, from)
  where
    to :
        request method params p ≡ (ok response, record (sent method params p) { lines = left })
        → Answered (p.next_id + 1) p.lines response left
    to h =
        await-Answered (p.next_id + 1) p.ending p.lines response left
          (ground (arith, request_of_write method params p w))

    from :
        Answered (p.next_id + 1) p.lines response left
        → request method params p ≡ (ok response, record (sent method params p) { lines = left })
    from a =
        request_of_write method params p w
        ∙ ap (λ r. awaited r (sent method params p))
            (ap (await (p.next_id + 1) p.ending) a.split
              ∙ await-append (p.next_id + 1) p.ending a.skipped a.line left response a.others a.live
                  a.decoded a.same)
