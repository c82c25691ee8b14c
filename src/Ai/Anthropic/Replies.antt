-- ===== src/Ai/Anthropic/Replies.antt =====
-- internal/ai/provider/anthropic/provider.go: convertResponse, mapStopReason and parseError, and the
-- loop over a stream's lines.
use agenthub_skill_runtime.Base.{
  List, [], ◌∷◌, ◌++◌, Option, none, some, Bytes, codes, is_empty, eqb, cut_prefix, if◌then◌else◌,
}
use agenthub_skill_runtime.Base.Int.{add_int64}
use agenthub_skill_runtime.Base.Decimal.{itoa}
use agenthub_skill_runtime.Executor.{Value, Error, leaf, prefixed, Result, ok, err, ◌>>=◌}
use agenthub_skill_runtime.Ai.{ToolCall, ChatResponse, StreamChunk, no_chunk}
use agenthub_skill_runtime.Ai.Transport.{Codec, Body, Response}
use agenthub_skill_runtime.Ai.Decode.{set_struct, no_tool_call}
use agenthub_skill_runtime.Ai.Events.{Reaction, go_on, return, continue}
use agenthub_skill_runtime.Ai.Anthropic.Wire.{
  ContentBlock, MessagesResponse, ContentDelta, StreamEventEnvelope, no_event, read_event,
  read_api_error,
}

unfoldable pub map_stop_reason : Bytes → Bytes
map_stop_reason r =
    if eqb r (codes "end_turn")
    then codes "stop"
    else if eqb r (codes "tool_use")
    then codes "tool_calls"
    else if eqb r (codes "max_tokens")
    then codes "length"
    else r

abbrev pub api_error : Response → Bytes → Error
api_error resp detail =
    if is_empty detail
    then leaf (codes "anthropic: unexpected status " ++ itoa resp.status_code)
    else leaf (codes "anthropic: API error " ++ (itoa resp.status_code ++ (codes ": " ++ detail)))

-- case "content_block_delta"
abbrev pub block_delta : Option ContentDelta → Reaction
block_delta none = continue
block_delta (some d) =
    if eqb d.kind (codes "text_delta")
    then go_on (record no_chunk { delta = d.text } ∷ [])
    else if eqb d.kind (codes "input_json_delta")
    then go_on (
        record no_chunk {
          tool_call_delta =
              some (record no_tool_call {
                function = record { name = []; arguments = d.partial_json };
              });
        }
        ∷ [])
    else go_on (no_chunk ∷ [])

-- case "message_delta"
abbrev pub message_delta : Option ContentDelta → Reaction
message_delta none = continue
message_delta (some d) =
    if is_empty d.stop_reason
    then continue
    else go_on (record no_chunk { finish_reason = map_stop_reason d.stop_reason } ∷ [])

-- switch env.Type
unfoldable pub react_event : StreamEventEnvelope → Reaction
react_event env =
    if eqb env.kind (codes "content_block_delta")
    then block_delta env.delta
    else if eqb env.kind (codes "message_delta")
    then message_delta env.delta
    else if eqb env.kind (codes "message_stop")
    then return []
    else continue

abbrev pub broken : Error → StreamChunk
broken e = record no_chunk { error = some e }

module _ (codec : Codec) where
  abbrev pub arguments_of : Option Value → Bytes
  arguments_of none = codes "{}"
  arguments_of (some v) = codec.text v

  abbrev pub tool_call_of : ContentBlock → ToolCall
  tool_call_of block = record {
    id = block.id;
    kind = codes "function";
    function = record { name = block.name; arguments = arguments_of block.input };
  }

  unfoldable pub add_block : ContentBlock → ChatResponse → ChatResponse
  add_block block resp =
      if eqb block.kind (codes "text")
      then record resp { content = resp.content ++ block.text }
      else if eqb block.kind (codes "tool_use")
      then record resp { tool_calls = resp.tool_calls ++ tool_call_of block ∷ [] }
      else resp

  -- for _, block := range r.Content { … }
  unfoldable pub add_blocks : List ContentBlock → ChatResponse → ChatResponse
  unfolding add_block
  add_blocks [] resp = resp
  add_blocks (block ∷ blocks) resp = add_blocks blocks (add_block block resp)

  unfoldable pub convert_response : MessagesResponse → ChatResponse
  unfolding add_blocks
  convert_response r = add_blocks r.content (record {
    content = [];
    tool_calls = [];
    finish_reason = map_stop_reason r.stop_reason;
    usage = record {
      prompt_tokens = r.usage.input_tokens;
      completion_tokens = r.usage.output_tokens;
      total_tokens = add_int64 r.usage.input_tokens r.usage.output_tokens;
    };
    model = r.model;
  })

  -- What the API says of an error, if that can be read.
  unfoldable pub error_detail : Body → Result Bytes
  error_detail body = codec.decode body >>= λ v. set_struct read_api_error v []

  unfoldable pub parse_error : Response → Error
  unfolding error_detail
  parse_error resp = elim (error_detail resp.body) [
    | ok detail ↦ api_error resp detail
    | err e ↦ api_error resp []
  ]

  -- json.Unmarshal of the data of an event
  unfoldable pub event_of : Bytes → Result StreamEventEnvelope
  event_of text = codec.parse text >>= λ v. set_struct read_event v no_event

  unfoldable pub react_data : Bytes → Reaction
  unfolding event_of react_event
  react_data text = elim (event_of text) [
    | ok env ↦ react_event env
    | err e ↦ return (broken (prefixed (codes "anthropic: decode stream event: ") e) ∷ [])
  ]

  unfoldable pub react_line : Bytes → Reaction
  unfolding react_data cut_prefix
  react_line line = elim (cut_prefix line (codes "data: ")) [
    | none ↦ continue
    | some text ↦ react_data text
  ]
