-- ===== src/Ai.antt =====
-- internal/ai/model.go: what the language-model providers share. The providers stand in the modules
-- below. JSON objects with Go's nil maps are `none`; a float64 is what a number literal spells.
pub mod Registry
pub mod Transport
pub mod Decode
pub mod Events
pub mod Channel
pub mod Anthropic
pub mod Openai
pub mod Openrouter
pub mod Ollama
use agenthub_skill_runtime.Base.{Bool, List, [], ◌∷◌, Option, none, Bytes, codes, is_empty}
use agenthub_skill_runtime.Base.Int.{ℤ}
use agenthub_skill_runtime.Executor.{Object, Error, Result, Float64}

abbrev pub role_system : Bytes
role_system = codes "system"

abbrev pub role_tool : Bytes
role_tool = codes "tool"

pub record ToolFunction : Type 0 where
  pub name : Bytes
  pub arguments : Bytes

pub record ToolCall : Type 0 where
  pub id : Bytes
  pub kind : Bytes
  pub function : ToolFunction

pub record Message : Type 0 where
  pub role : Bytes
  pub content : Bytes
  pub tool_call_id : Bytes
  pub tool_calls : List ToolCall
  pub metadata : Option Object

pub record ToolSchema : Type 0 where
  pub name : Bytes
  pub description : Bytes
  pub parameters : Option Object

pub record Tool : Type 0 where
  pub kind : Bytes
  pub function : ToolSchema

-- Its field Stream is read by no provider.
pub record ChatOptions : Type 0 where
  pub model : Bytes
  pub max_tokens : ℤ
  pub temperature : Float64
  pub top_p : Float64
  pub tools : List Tool
  pub system_msg : Bytes

pub record Usage : Type 0 where
  pub prompt_tokens : ℤ
  pub completion_tokens : ℤ
  pub total_tokens : ℤ

pub record ChatResponse : Type 0 where
  pub content : Bytes
  pub tool_calls : List ToolCall
  pub finish_reason : Bytes
  pub usage : Usage
  pub model : Bytes

pub record StreamChunk : Type 0 where
  pub delta : Bytes
  pub tool_call_delta : Option ToolCall
  pub finish_reason : Bytes
  pub error : Option Error

abbrev pub no_chunk : StreamChunk
no_chunk = record { delta = []; tool_call_delta = none; finish_reason = []; error = none }

-- The interface of a provider. What ChatStream returns is what is sent on its channel before that is
-- closed, received by a reader that takes everything.
pub record ChatModel : Type 0 where
  pub provider_name : Bytes
  pub chat : List Message → ChatOptions → Result ChatResponse
  pub chat_stream : List Message → ChatOptions → Result (List StreamChunk)

abbrev pub system_message : Bytes → Message
system_message text = record {
  role = role_system;
  content = text;
  tool_call_id = [];
  tool_calls = [];
  metadata = none;
}
