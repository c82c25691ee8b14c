-- ===== src/Ai/Openai/Wire.antt =====
-- internal/ai/provider/openai/provider.go: the structs that are sent and received, and how those of
-- an answer are read from JSON. Its toolCall and tool are the shared ToolCall and Tool with the same
-- fields and tags.
use agenthub_skill_runtime.Base.{Bool, List, [], Option, none, Bytes, codes}
use agenthub_skill_runtime.Base.Int.{ℤ, pos}
use agenthub_skill_runtime.Executor.{
  Value, null, Object, Float64, Result, ok, ◌>>=◌, string_field, int_field, decode_field,
  set_string,
}
use agenthub_skill_runtime.Ai.{ToolCall, Tool}
use agenthub_skill_runtime.Ai.Decode.{struct_field, structs_field, read_tool_call, no_tool_call}

-- message
pub record WireMessage : Type 0 where
  pub role : Bytes
  pub content : Bytes
  pub tool_call_id : Bytes
  pub tool_calls : List ToolCall

pub record ChatRequest : Type 0 where
  pub model : Bytes
  pub messages : List WireMessage
  pub max_tokens : ℤ
  pub temperature : Float64
  pub top_p : Float64
  pub tools : List Tool
  pub stream : Bool

pub record Choice : Type 0 where
  pub index : ℤ
  pub message : WireMessage
  pub finish_reason : Bytes

-- usage
pub record WireUsage : Type 0 where
  pub prompt_tokens : ℤ
  pub completion_tokens : ℤ
  pub total_tokens : ℤ

-- chatResponse
pub record ChatReply : Type 0 where
  pub id : Bytes
  pub model : Bytes
  pub choices : List Choice
  pub usage : WireUsage

-- streamDelta
pub record StreamDelta : Type 0 where
  pub role : Bytes
  pub content : Option Bytes
  pub tool_calls : List ToolCall

-- streamChoice
pub record StreamChoice : Type 0 where
  pub index : ℤ
  pub delta : StreamDelta
  pub finish_reason : Option Bytes

abbrev pub no_message : WireMessage
no_message = record { role = []; content = []; tool_call_id = []; tool_calls = [] }

abbrev pub no_choice : Choice
no_choice = record { index = pos 0; message = no_message; finish_reason = [] }

abbrev pub no_usage : WireUsage
no_usage = record { prompt_tokens = pos 0; completion_tokens = pos 0; total_tokens = pos 0 }

abbrev pub no_reply : ChatReply
no_reply = record { id = []; model = []; choices = []; usage = no_usage }

abbrev pub no_delta : StreamDelta
no_delta = record { role = []; content = none; tool_calls = [] }

abbrev pub no_stream_choice : StreamChoice
no_stream_choice = record { index = pos 0; delta = no_delta; finish_reason = none }

-- *string
abbrev pub set_string_pointer : Value → Option Bytes → Result (Option Bytes)
set_string_pointer null s = ok none
set_string_pointer v s = set_string v [] >>= λ t. ok (Option.some t)

abbrev pub pointer_to_string : Bytes → Object → Result (Option Bytes)
pointer_to_string name o = decode_field name set_string_pointer o none

abbrev pub tool_calls_field : Object → Result (List ToolCall)
tool_calls_field o = structs_field (codes "tool_calls") read_tool_call no_tool_call o

unfoldable pub read_message : Object → Result WireMessage
read_message o = do
  role ← string_field (codes "role") o
  content ← string_field (codes "content") o
  tool_call_id ← string_field (codes "tool_call_id") o
  tool_calls ← tool_calls_field o
  ok (record {
    role = role;
    content = content;
    tool_call_id = tool_call_id;
    tool_calls = tool_calls;
  })

unfoldable pub read_choice : Object → Result Choice
unfolding read_message
read_choice o = do
  index ← int_field (codes "index") o
  message ← struct_field (codes "message") read_message no_message o
  finish_reason ← string_field (codes "finish_reason") o
  ok (record { index = index; message = message; finish_reason = finish_reason })

-- It has the same tags in the answers of OpenRouter.
unfoldable pub read_usage : Object → Result WireUsage
read_usage o = do
  prompt ← int_field (codes "prompt_tokens") o
  completion ← int_field (codes "completion_tokens") o
  total ← int_field (codes "total_tokens") o
  ok (record { prompt_tokens = prompt; completion_tokens = completion; total_tokens = total })

unfoldable pub read_reply : Object → Result ChatReply
unfolding read_choice read_usage
read_reply o = do
  id ← string_field (codes "id") o
  model ← string_field (codes "model") o
  choices ← structs_field (codes "choices") read_choice no_choice o
  usage ← struct_field (codes "usage") read_usage no_usage o
  ok (record { id = id; model = model; choices = choices; usage = usage })

unfoldable pub read_delta : Object → Result StreamDelta
read_delta o = do
  role ← string_field (codes "role") o
  content ← pointer_to_string (codes "content") o
  tool_calls ← tool_calls_field o
  ok (record { role = role; content = content; tool_calls = tool_calls })

unfoldable pub read_stream_choice : Object → Result StreamChoice
unfolding read_delta
read_stream_choice o = do
  index ← int_field (codes "index") o
  delta ← struct_field (codes "delta") read_delta no_delta o
  finish_reason ← pointer_to_string (codes "finish_reason") o
  ok (record { index = index; delta = delta; finish_reason = finish_reason })

-- streamEvent: its choices
unfoldable pub read_stream_event : Object → Result (List StreamChoice)
unfolding read_stream_choice
read_stream_event o = structs_field (codes "choices") read_stream_choice no_stream_choice o

-- apiError: its message
unfoldable pub read_detail : Object → Result Bytes
read_detail o = do
  message ← string_field (codes "message") o
  kind ← string_field (codes "type") o
  code ← string_field (codes "code") o
  ok message

unfoldable pub read_api_error : Object → Result Bytes
unfolding read_detail
read_api_error o = struct_field (codes "error") read_detail [] o
