-- ===== src/Ai/Openai/Replies.antt =====
-- internal/ai/provider/openai/provider.go: convertResponse and parseError, and the loop over a
-- stream's lines.
use agenthub_skill_runtime.Base.{
  List, [], ◌∷◌, ◌++◌, map, Option, none, some, Bytes, codes, is_empty, eqb, cut_prefix,
  if◌then◌else◌,
}
use agenthub_skill_runtime.Base.Decimal.{itoa}
use agenthub_skill_runtime.Executor.{Error, leaf, prefixed, Result, ok, err, ◌>>=◌}
use agenthub_skill_runtime.Ai.{ToolCall, Usage, ChatResponse, StreamChunk, no_chunk}
use agenthub_skill_runtime.Ai.Transport.{Codec, Body, Response}
use agenthub_skill_runtime.Ai.Decode.{set_struct}
use agenthub_skill_runtime.Ai.Events.{Reaction, go_on, return, continue}
use agenthub_skill_runtime.Ai.Openai.Wire.{
  Choice, WireUsage, ChatReply, StreamChoice, read_stream_event, read_api_error,
}
use agenthub_skill_runtime.Ai.Openai.Requests.{tool_call_of}

abbrev pub usage_of : WireUsage → Usage
usage_of u = record {
  prompt_tokens = u.prompt_tokens;
  completion_tokens = u.completion_tokens;
  total_tokens = u.total_tokens;
}

-- if len(r.Choices) > 0 { … }
abbrev pub with_choice : List Choice → ChatResponse → ChatResponse
with_choice [] resp = resp
with_choice (c ∷ cs) resp = record resp {
  content = c.message.content;
  finish_reason = c.finish_reason;
  tool_calls = map tool_call_of c.message.tool_calls;
}

unfoldable pub convert_response : ChatReply → ChatResponse
convert_response r = with_choice r.choices (record {
  content = [];
  tool_calls = [];
  finish_reason = [];
  usage = usage_of r.usage;
  model = r.model;
})

abbrev pub api_error : Response → Bytes → Error
api_error resp detail =
    if is_empty detail
    then leaf (codes "openai: unexpected status " ++ itoa resp.status_code)
    else leaf (codes "openai: API error " ++ (itoa resp.status_code ++ (codes ": " ++ detail)))

abbrev pub text_or_empty : Option Bytes → Bytes
text_or_empty none = []
text_or_empty (some s) = s

abbrev pub first_call : List ToolCall → Option ToolCall
first_call [] = none
first_call (tc ∷ tcs) = some (tool_call_of tc)

unfoldable pub chunk_of : StreamChoice → StreamChunk
chunk_of c = record {
  delta = text_or_empty c.delta.content;
  tool_call_delta = first_call c.delta.tool_calls;
  finish_reason = text_or_empty c.finish_reason;
  error = none;
}

abbrev pub broken : Error → StreamChunk
broken e = record no_chunk { error = some e }

module _ (codec : Codec) where
  -- What the API says of an error, if that can be read.
  unfoldable pub error_detail : Body → Result Bytes
  error_detail body = codec.decode body >>= λ v. set_struct read_api_error v []

  unfoldable pub parse_error : Response → Error
  unfolding error_detail
  parse_error resp = elim (error_detail resp.body) [
    | ok detail ↦ api_error resp detail
    | err e ↦ api_error resp []
  ]

  -- json.Unmarshal of the data of an event
  unfoldable pub choices_of : Bytes → Result (List StreamChoice)
  choices_of text = codec.parse text >>= λ v. set_struct read_stream_event v []

  unfoldable pub react_data : Bytes → Reaction
  unfolding choices_of chunk_of
  react_data text = elim (choices_of text) [
    | ok choices ↦ go_on (map chunk_of choices)
    | err e ↦ return (broken (prefixed (codes "openai: decode stream event: ") e) ∷ [])
  ]

  unfoldable pub react_line : Bytes → Reaction
  unfolding react_data cut_prefix eqb
  react_line line =
      if eqb line (codes "data: [DONE]")
      then return []
      else elim (cut_prefix line (codes "data: ")) [ none ↦ continue | some text ↦ react_data text ]
