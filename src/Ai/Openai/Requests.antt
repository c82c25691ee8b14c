-- ===== src/Ai/Openai/Requests.antt =====
-- internal/ai/provider/openai/provider.go: buildRequest.
use agenthub_skill_runtime.Base.{Bool, List, [], ◌∷◌, ◌++◌, map, Bytes, is_empty, if◌then◌else◌}
use agenthub_skill_runtime.Ai.{Message, ToolCall, Tool, ChatOptions, role_system}
use agenthub_skill_runtime.Ai.Openai.Wire.{WireMessage, ChatRequest}

-- toolCall{…} and, in the other direction, ai.ToolCall{…}: field by field
abbrev pub tool_call_of : ToolCall → ToolCall
tool_call_of tc = record {
  id = tc.id;
  kind = tc.kind;
  function = record { name = tc.function.name; arguments = tc.function.arguments };
}

abbrev pub tool_of : Tool → Tool
tool_of t = record {
  kind = t.kind;
  function = record {
    name = t.function.name;
    description = t.function.description;
    parameters = t.function.parameters;
  };
}

unfoldable pub wire_message : Message → WireMessage
wire_message m = record {
  role = m.role;
  content = m.content;
  tool_call_id = m.tool_call_id;
  tool_calls = map tool_call_of m.tool_calls;
}

abbrev pub system_part : Bytes → List WireMessage
system_part text =
    if is_empty text
    then []
    else record { role = role_system; content = text; tool_call_id = []; tool_calls = [] } ∷ []

unfoldable pub build_request : List Message → ChatOptions → Bool → ChatRequest
unfolding wire_message
build_request messages opts stream = record {
  model = opts.model;
  messages = system_part opts.system_msg ++ map wire_message messages;
  max_tokens = opts.max_tokens;
  temperature = opts.temperature;
  top_p = opts.top_p;
  tools = map tool_of opts.tools;
  stream = stream;
}
