-- ===== src/Ai/Openrouter/Wire.antt =====
-- internal/ai/provider/openrouter/provider.go: the structs that are sent and received. Messages are
-- those of internal/ai/model.go, read by the tags that stand there.
use agenthub_skill_runtime.Base.{Bool, List, [], none, Bytes, codes}
use agenthub_skill_runtime.Base.Int.{ℤ}
use agenthub_skill_runtime.Executor.{Object, Float64, Result, ok, ◌>>=◌, string_field, decode_field}
use agenthub_skill_runtime.Ai.{Message, Tool}
use agenthub_skill_runtime.Ai.Decode.{
  struct_field, structs_field, set_map, read_tool_call, no_tool_call,
}
use agenthub_skill_runtime.Ai.Openai.Wire.{WireUsage, no_usage, read_usage}

pub record ChatRequest : Type 0 where
  pub model : Bytes
  pub messages : List Message
  pub stream : Bool
  pub max_tokens : ℤ
  pub temperature : Float64
  pub top_p : Float64
  pub tools : List Tool

-- chatChoice, and a choice of an event with its delta for the message
pub record ChatChoice : Type 0 where
  pub message : Message
  pub finish_reason : Bytes

-- chatResponse
pub record ChatReply : Type 0 where
  pub choices : List ChatChoice
  pub usage : WireUsage
  pub model : Bytes

abbrev pub no_message : Message
no_message = record { role = []; content = []; tool_call_id = []; tool_calls = []; metadata = none }

abbrev pub no_choice : ChatChoice
no_choice = record { message = no_message; finish_reason = [] }

abbrev pub no_reply : ChatReply
no_reply = record { choices = []; usage = no_usage; model = [] }

-- An ai.Message by its tags.
unfoldable pub read_message : Object → Result Message
read_message o = do
  role ← string_field (codes "role") o
  content ← string_field (codes "content") o
  tool_call_id ← string_field (codes "toolCallId") o
  tool_calls ← structs_field (codes "toolCalls") read_tool_call no_tool_call o
  metadata ← decode_field (codes "metadata") set_map o none
  ok (record {
    role = role;
    content = content;
    tool_call_id = tool_call_id;
    tool_calls = tool_calls;
    metadata = metadata;
  })

-- A choice, whose message stands under `name`.
unfoldable pub read_choice : Bytes → Object → Result ChatChoice
unfolding read_message
read_choice name o = do
  message ← struct_field name read_message no_message o
  finish_reason ← string_field (codes "finish_reason") o
  ok (record { message = message; finish_reason = finish_reason })

unfoldable pub read_reply : Object → Result ChatReply
unfolding read_choice
read_reply o = do
  choices ← structs_field (codes "choices") (read_choice (codes "message")) no_choice o
  usage ← struct_field (codes "usage") read_usage no_usage o
  model ← string_field (codes "model") o
  ok (record { choices = choices; usage = usage; model = model })

-- The choices of an event.
unfoldable pub read_event : Object → Result (List ChatChoice)
unfolding read_choice
read_event o = structs_field (codes "choices") (read_choice (codes "delta")) no_choice o
