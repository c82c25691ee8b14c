-- ===== src/Ai/Anthropic/Streaming.antt =====
-- internal/ai/provider/anthropic/provider.go: the stream of a message against the events that the
-- Messages API documents.
use agenthub_skill_runtime.Base.{
  ◌≡◌, refl, false, List, [], ◌∷◌, ◌++◌, append-nil, ◌∙◌, Option, some, Bytes, codes, is_empty, eqb,
  All, contains_byte,
}
use agenthub_skill_runtime.Executor.{Error, ok}
use agenthub_skill_runtime.Ai.{StreamChunk, no_chunk}
use agenthub_skill_runtime.Ai.Decode.{no_tool_call}
use agenthub_skill_runtime.Ai.Transport.{Codec}
use agenthub_skill_runtime.Ai.Events.{drop_cr, go_on, return, continue}
use agenthub_skill_runtime.Ai.Events.Lines.{
  IsLine, Sends, nothing, more, pump_whole, pump_stopped, spell_lines,
}
use agenthub_skill_runtime.Ai.Anthropic.Wire.{StreamEventEnvelope, ContentDelta}
use agenthub_skill_runtime.Ai.Anthropic.Replies.{
  map_stop_reason, event_of, react_event, react_data, react_line,
}
use agenthub_skill_runtime.Ai.Anthropic.Chat.{at_end, stream_chunks}

-- The events behind message_start: pieces of text, pieces of a tool's arguments, the reason to stop,
-- and those that carry nothing for the reader.
pub data ApiEvent : Type 0 where
  text_delta : Bytes → ApiEvent
  input_json_delta : Bytes → ApiEvent
  stopped : Bytes → ApiEvent
  silent : ApiEvent

abbrev pub IsDelta : Bytes → StreamEventEnvelope → ContentDelta → Type 0
IsDelta kind env d = (env.kind ≡ kind) × (env.delta ≡ some d)

-- How an event is written.
abbrev pub IsWritten : ApiEvent → StreamEventEnvelope → Type 0
IsWritten (text_delta text) env =
    (d : ContentDelta) × IsDelta (codes "content_block_delta") env d
    × (d.kind ≡ codes "text_delta")
    × (d.text ≡ text)
IsWritten (input_json_delta json) env =
    (d : ContentDelta) × IsDelta (codes "content_block_delta") env d
    × (d.kind ≡ codes "input_json_delta")
    × (d.partial_json ≡ json)
IsWritten (stopped reason) env =
    (d : ContentDelta) × IsDelta (codes "message_delta") env d
    × (d.stop_reason ≡ reason)
    × (is_empty reason ≡ false)
IsWritten silent env =
    (eqb env.kind (codes "content_block_delta") ≡ false)
    × (eqb env.kind (codes "message_delta") ≡ false)
    × (eqb env.kind (codes "message_stop") ≡ false)

-- What the reader is to get of it.
abbrev pub chunks_of : ApiEvent → List StreamChunk
chunks_of (text_delta text) = record no_chunk { delta = text } ∷ []
chunks_of (input_json_delta json) =
    record no_chunk {
      tool_call_delta =
          some (record no_tool_call { function = record { name = []; arguments = json } });
    }
    ∷ []
chunks_of (stopped reason) = record no_chunk { finish_reason = map_stop_reason reason } ∷ []
chunks_of silent = []

-- An event with its name and its data on the wire.
pub record Sent : Type 0 where
  pub event : ApiEvent
  pub name : Bytes
  pub text : Bytes

abbrev pub name_line : Sent → Bytes
name_line s = codes "event: " ++ s.name

abbrev pub data_line : Sent → Bytes
data_line s = codes "data: " ++ s.text

abbrev pub lines_of : List Sent → List Bytes
lines_of [] = []
lines_of (s ∷ rest) = name_line s ∷ data_line s ∷ [] ∷ lines_of rest

abbrev pub all_chunks : List Sent → List StreamChunk
all_chunks [] = []
all_chunks (s ∷ rest) = chunks_of s.event ++ all_chunks rest

module _ (codec : Codec) where
  -- The two lines are lines, and the data reads as the event.
  pub record IsSent (s : Sent) : Type 0 where
    pub named : IsLine (name_line s)
    pub given : IsLine (data_line s)
    pub env : StreamEventEnvelope
    pub read : event_of codec s.text ≡ ok env
    pub written : IsWritten s.event env

  react_event-IsWritten :
      (event : ApiEvent) (env : StreamEventEnvelope)
      → IsWritten event env
      → react_event env ≡ go_on (chunks_of event)
  unfolding react_event eqb
  react_event-IsWritten (text_delta text) env (d, (k, e), dk, dt) = rw (k, e, dk, dt)
  react_event-IsWritten (input_json_delta json) env (d, (k, e), dk, dt) = rw (k, e, dk, dt)
  react_event-IsWritten (stopped reason) env (d, (k, e), dr, full) = rw (k, e, dr, full)
  react_event-IsWritten silent env (a, b, c) = rw (a, b, c)

  react_line-data :
      (text : Bytes) → react_line codec (codes "data: " ++ text) ≡ react_data codec text
  unfolding react_line
  react_line-data text = refl

  react_data-IsSent : (s : Sent) → IsSent s → react_data codec s.text ≡ go_on (chunks_of s.event)
  unfolding react_data
  react_data-IsSent s h = rw (h.read, react_data) (react_event-IsWritten s.event h.env h.written)

  react_line-name : (name : Bytes) → react_line codec (codes "event: " ++ name) ≡ continue
  unfolding react_line
  react_line-name name = refl

  IsSent-Sends :
      (sent : List Sent)
      → All IsSent sent
      → Sends (react_line codec) (lines_of sent) (all_chunks sent)
  unfolding react_line
  IsSent-Sends [] h = nothing
  IsSent-Sends (s ∷ rest) h =
      more (react_line-name s.name) (
        more (react_line-data s.text ∙ react_data-IsSent s h.0) (more refl (IsSent-Sends rest h.1)))

  lines_of-IsLine : (sent : List Sent) → All IsSent sent → All IsLine (lines_of sent)
  unfolding contains_byte drop_cr
  lines_of-IsLine [] h = tt
  lines_of-IsLine (s ∷ rest) h =
      let empty : IsLine [] = record { whole = refl; fits = refl; no_cr = refl } in
      (h.0.named, (h.0.given, (empty, lines_of-IsLine rest h.1)))

  react_line-stop :
      (text : Bytes) (env : StreamEventEnvelope)
      → event_of codec text ≡ ok env
      → env.kind ≡ codes "message_stop"
      → react_line codec (codes "data: " ++ text) ≡ return []
  unfolding react_event react_data eqb
  react_line-stop text env e k = react_line-data text ∙ rw (e, react_data, k)

  -- Of events that are written as the API documents, each with its name and its data on lines that fit
  -- the scanner's buffer, the reader gets one chunk for each piece of text, one for each piece of a
  -- tool's arguments and one with the translated reason to stop, in order, and no other. If
  -- message_stop follows, the channel is closed there, whatever stands behind it and however the body
  -- ends. If the body ends without it, the channel is closed at its end, behind the error with which
  -- the body has broken off, if there was one.
  pub stream_chunks-events :
      (sent : List Sent)
      → All IsSent sent
      → (stop rest : Bytes) (env : StreamEventEnvelope) (failure : Option Error)
      → IsLine (codes "data: " ++ stop)
      → event_of codec stop ≡ ok env
      → env.kind ≡ codes "message_stop"
      → (stream_chunks codec (record {
        bytes = spell_lines (lines_of sent) ++ ((codes "data: " ++ stop) ++ b'\n' ∷ rest);
        failure = failure;
      })
          ≡ all_chunks sent)
        × (stream_chunks codec (record { bytes = spell_lines (lines_of sent); failure = failure })
            ≡ all_chunks sent ++ at_end failure)
  unfolding stream_chunks
  stream_chunks-events sent h stop rest env failure hl e k = (
    pump_stopped (IsSent-Sends sent h) (codes "data: " ++ stop) rest [] failure at_end
          (lines_of-IsLine sent h) hl (react_line-stop stop env e k)
        ∙ append-nil (all_chunks sent),
    pump_whole (IsSent-Sends sent h) failure at_end (lines_of-IsLine sent h),
  )
