-- ===== src/Ai/Anthropic/Wire.antt =====
-- internal/ai/provider/anthropic/provider.go: the structs that are sent and received, and how those
-- of an answer are read from JSON.
use agenthub_skill_runtime.Base.{Bool, List, [], Option, none, Bytes, codes}
use agenthub_skill_runtime.Base.Int.{ℤ, pos}
use agenthub_skill_runtime.Executor.{
  Value, Object, Result, ok, ◌>>=◌, string_field, int_field, raw_field,
}
use agenthub_skill_runtime.Ai.Decode.{struct_field, pointer_field, structs_field}

-- textContent, toolUseContent and toolResultContent; the input of a tool use is raw JSON.
pub data Block : Type 0 where
  text_block : Bytes → Block
  tool_use : Bytes → Bytes → Bytes → Block
  tool_result : Bytes → Bytes → Block

-- message: its content is raw JSON.
pub record WireMessage : Type 0 where
  pub role : Bytes
  pub content : Bytes

pub record WireTool : Type 0 where
  pub name : Bytes
  pub description : Bytes
  pub input_schema : Option Object

pub record MessagesRequest : Type 0 where
  pub model : Bytes
  pub max_tokens : ℤ
  pub system : Bytes
  pub messages : List WireMessage
  pub tools : List WireTool
  pub stream : Bool

-- json.Marshal of a request and of a message's blocks
pub record Marshal : Type 0 where
  pub request : MessagesRequest → Result Bytes
  pub blocks : List Block → Result Bytes

pub record ContentBlock : Type 0 where
  pub kind : Bytes
  pub text : Bytes
  pub id : Bytes
  pub name : Bytes
  pub input : Option Value

pub record AnthropicUsage : Type 0 where
  pub input_tokens : ℤ
  pub output_tokens : ℤ

pub record MessagesResponse : Type 0 where
  pub id : Bytes
  pub model : Bytes
  pub content : List ContentBlock
  pub stop_reason : Bytes
  pub usage : AnthropicUsage

pub record ContentDelta : Type 0 where
  pub kind : Bytes
  pub text : Bytes
  pub partial_json : Bytes
  pub stop_reason : Bytes

pub record StreamEventEnvelope : Type 0 where
  pub kind : Bytes
  pub index : ℤ
  pub delta : Option ContentDelta
  pub usage : Option AnthropicUsage

abbrev pub no_block : ContentBlock
no_block = record { kind = []; text = []; id = []; name = []; input = none }

abbrev pub no_usage : AnthropicUsage
no_usage = record { input_tokens = pos 0; output_tokens = pos 0 }

abbrev pub no_response : MessagesResponse
no_response = record { id = []; model = []; content = []; stop_reason = []; usage = no_usage }

abbrev pub no_event : StreamEventEnvelope
no_event = record { kind = []; index = pos 0; delta = none; usage = none }

unfoldable pub read_block : Object → Result ContentBlock
read_block o = do
  kind ← string_field (codes "type") o
  text ← string_field (codes "text") o
  id ← string_field (codes "id") o
  name ← string_field (codes "name") o
  input ← raw_field (codes "input") o
  ok (record { kind = kind; text = text; id = id; name = name; input = input })

unfoldable pub read_usage : Object → Result AnthropicUsage
read_usage o = do
  input ← int_field (codes "input_tokens") o
  output ← int_field (codes "output_tokens") o
  ok (record { input_tokens = input; output_tokens = output })

unfoldable pub read_messages_response : Object → Result MessagesResponse
unfolding read_block read_usage
read_messages_response o = do
  id ← string_field (codes "id") o
  model ← string_field (codes "model") o
  content ← structs_field (codes "content") read_block no_block o
  stop_reason ← string_field (codes "stop_reason") o
  usage ← struct_field (codes "usage") read_usage no_usage o
  ok (record {
    id = id;
    model = model;
    content = content;
    stop_reason = stop_reason;
    usage = usage;
  })

unfoldable pub read_delta : Object → Result ContentDelta
read_delta o = do
  kind ← string_field (codes "type") o
  text ← string_field (codes "text") o
  partial_json ← string_field (codes "partial_json") o
  stop_reason ← string_field (codes "stop_reason") o
  ok (record { kind = kind; text = text; partial_json = partial_json; stop_reason = stop_reason })

unfoldable pub read_event : Object → Result StreamEventEnvelope
unfolding read_delta read_usage
read_event o = do
  kind ← string_field (codes "type") o
  index ← int_field (codes "index") o
  delta ← pointer_field (codes "delta") read_delta o
  usage ← pointer_field (codes "usage") read_usage o
  ok (record { kind = kind; index = index; delta = delta; usage = usage })

-- apiError: its message.
unfoldable pub read_detail : Object → Result Bytes
read_detail o = do
  kind ← string_field (codes "type") o
  message ← string_field (codes "message") o
  ok message

unfoldable pub read_api_error : Object → Result Bytes
unfolding read_detail
read_api_error o = do
  kind ← string_field (codes "type") o
  struct_field (codes "error") read_detail [] o
