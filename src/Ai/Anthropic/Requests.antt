-- ===== src/Ai/Anthropic/Requests.antt =====
-- internal/ai/provider/anthropic/provider.go: buildRequest and convertMessage.
use agenthub_skill_runtime.Base.{
  Bool, true, false, List, [], ◌∷◌, ◌++◌, map, Bytes, codes, is_empty, eqb, if◌then◌else◌,
}
use agenthub_skill_runtime.Base.Int.{ℤ, pos, is_zero}
use agenthub_skill_runtime.Executor.{Result, ok, ◌>>=◌, or_wrap}
use agenthub_skill_runtime.Ai.{Message, ToolCall, Tool, ChatOptions, role_system, role_tool}
use agenthub_skill_runtime.Ai.Transport.{Codec, is_valid_json}
use agenthub_skill_runtime.Ai.Anthropic.Wire.{
  Block, text_block, tool_use, tool_result, WireMessage, WireTool, MessagesRequest, Marshal,
}

abbrev pub text_blocks : Bytes → List Block
text_blocks content = if is_empty content then [] else text_block content ∷ []

abbrev pub as_message : Bytes → Bytes → Result Bytes → Result WireMessage
as_message role what raw =
    or_wrap what raw >>= λ content. ok (record { role = role; content = content })

abbrev pub tool_of : Tool → WireTool
tool_of t = record {
  name = t.function.name;
  description = t.function.description;
  input_schema = t.function.parameters;
}

abbrev pub max_tokens_of : ℤ → ℤ
max_tokens_of n = if is_zero n then pos 4096 else n

unfoldable pub tool_use_of : Codec → ToolCall → Block
tool_use_of codec tc =
    let raw = tc.function.arguments in
    tool_use tc.id tc.function.name (if is_valid_json codec raw then raw else codes "{}")

module _ (codec : Codec) (marshal : Marshal) where
  unfoldable pub convert_plain : Message → List ToolCall → Result WireMessage
  unfolding tool_use_of
  convert_plain m [] =
      as_message m.role (codes "anthropic: marshal text content: ")
        (marshal.blocks (text_block m.content ∷ []))
  convert_plain m (tc ∷ tcs) =
      as_message (codes "assistant") (codes "anthropic: marshal assistant tool_use: ")
        (marshal.blocks (text_blocks m.content ++ map (tool_use_of codec) (tc ∷ tcs)))

  unfoldable pub convert_message : Message → Result WireMessage
  unfolding convert_plain
  convert_message m =
      if eqb m.role role_tool
      then as_message (codes "user") (codes "anthropic: marshal tool result: ")
          (marshal.blocks (tool_result m.tool_call_id m.content ∷ []))
      else convert_plain m m.tool_calls

  -- for _, m := range messages { … }
  unfoldable pub add_messages : List Message → MessagesRequest → Result MessagesRequest
  unfolding convert_message
  add_messages [] req = ok req
  add_messages (m ∷ ms) req = elim (eqb m.role role_system) [
    | true ↦
        add_messages ms (if is_empty req.system then record req { system = m.content } else req)
    | false ↦ convert_message m >>= λ msg.
        add_messages ms (record req { messages = req.messages ++ msg ∷ [] })
  ]

  unfoldable pub build_request : List Message → ChatOptions → Bool → Result MessagesRequest
  unfolding add_messages
  build_request messages opts stream =
      add_messages messages (record {
        model = opts.model;
        max_tokens = max_tokens_of opts.max_tokens;
        system = opts.system_msg;
        messages = [];
        tools = [];
        stream = stream;
      })
      >>= λ req. ok (record req { tools = map tool_of opts.tools })
