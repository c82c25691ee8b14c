-- ===== src/Mcp/Stdio/Handshake.antt =====
-- The messages that a child process is sent.
use agenthub_skill_runtime.Base.{
  ◌≡◌, ◌⊎◌, inl, inr, List, [], ◌∷◌, Option, none, Bytes, codes, arith, Option-cases,
}
use agenthub_skill_runtime.Executor.{
  Object, empty, Error, Result, ok, err, Result-cases, ToolResult,
}
use agenthub_skill_runtime.Mcp.Protocol.{
  McpRequest, McpResponse, Line, Ending, Protocol, write, await, request, notification,
}
use agenthub_skill_runtime.Mcp.Stdio.{initialize_params, call_params, converse}

module _ (tool_name : Bytes) (input : Object) where
  -- The three messages of a session, numbered from 1.
  abbrev pub hello : McpRequest
  hello = record { id = 1; method = codes "initialize"; params = initialize_params }

  abbrev pub ready : McpRequest
  ready = record { id = 0; method = codes "notifications/initialized"; params = empty }

  abbrev pub call : McpRequest
  call = record { id = 2; method = codes "tools/call"; params = call_params tool_name input }

  abbrev pub fresh : List Line → Ending → (McpRequest → Option Error) → Protocol
  fresh lines ending write_error = record {
    lines = lines;
    ending = ending;
    written = [];
    write_error = write_error;
    next_id = 0;
  }

  called_after_answer :
      (lines : List Line) (ending : Ending) (write_error : McpRequest → Option Error)
      → (converse tool_name input (fresh lines ending write_error)).1.written
        ≡ hello ∷ ready ∷ call ∷ []
      → (x : McpResponse) × ((await 1 ending lines).0 ≡ ok x) × (x.error ≡ none)
  unfolding converse request notification write
  called_after_answer lines ending write_error h = elim (Result-cases (await 1 ending lines).0) [
    | inr (e, failed) ↦ absurd (ground arith)
    | inl (x, answered) ↦ elim (Option-cases x.error) [
      | inr (e, refused) ↦ absurd (ground arith)
      | inl fine ↦ (x, answered, fine)
    ]
  ]

  written_in_order :
      (lines : List Line) (ending : Ending) (write_error : McpRequest → Option Error)
      → (let (r, p) = converse tool_name input (fresh lines ending write_error) in
          ((p.written ≡ [])
            ⊎ (p.written ≡ hello ∷ [])
            ⊎ (p.written ≡ hello ∷ ready ∷ [])
            ⊎ (p.written ≡ hello ∷ ready ∷ call ∷ []))
          × ((result : ToolResult) → r ≡ ok result → p.written ≡ hello ∷ ready ∷ call ∷ []))
  unfolding converse request notification write
  written_in_order lines ending write_error = ground arith

  -- A session's result and its end: it failed early, or it wrote all three messages.
  abbrev pub IsSession : List Line → Ending → Result ToolResult → List McpRequest → Type 0
  IsSession lines ending r written =
      (((e : Error) × (r ≡ err e))
        × ((written ≡ []) ⊎ (written ≡ hello ∷ []) ⊎ (written ≡ hello ∷ ready ∷ [])))
      ⊎ ((written ≡ hello ∷ ready ∷ call ∷ [])
          × ((x : McpResponse) × ((await 1 ending lines).0 ≡ ok x) × (x.error ≡ none)))

  -- A session writes initialize, notifications/initialized and tools/call, in that order and nothing
  -- else: it fails before it has written the third, or it writes all three, which it does only if the
  -- server has answered initialize without an error.
  pub converse-written :
      (lines : List Line) (ending : Ending) (write_error : McpRequest → Option Error)
      → (let (r, p) = converse tool_name input (fresh lines ending write_error) in
          IsSession lines ending r p.written)
  converse-written lines ending write_error =
      let (order, complete) = written_in_order lines ending write_error in
      elim (Result-cases (converse tool_name input (fresh lines ending write_error)).0) [
        | inl (result, p) ↦
            let all = complete result p in
            inr (all, called_after_answer lines ending write_error all)
        | inr (e, p) ↦ elim order [
          | inl none_written ↦ inl ((e, p), inl none_written)
          | inr (inl one) ↦ inl ((e, p), inr (inl one))
          | inr (inr (inl two)) ↦ inl ((e, p), inr (inr two))
          | inr (inr (inr all)) ↦ inr (all, called_after_answer lines ending write_error all)
        ]
      ]
