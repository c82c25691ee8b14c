-- ===== src/Ai/Openrouter/Tests.antt =====
-- OpenRouter's answers and streams at concrete inputs.
use agenthub_skill_runtime.Base.{◌≡◌, refl, [], none, codes}
use agenthub_skill_runtime.Base.Int.{pos}
use agenthub_skill_runtime.Executor.{Value, str, arr, obj, nil, cons, empty, entry, leaf, ok, err}
use agenthub_skill_runtime.Ai.{ChatResponse}
use agenthub_skill_runtime.Ai.Openrouter.Chat.{read_answer}
use agenthub_skill_runtime.Ai.Transport.{Codec, Response}

-- An answer with a call of a tool, as the OpenAI format has it.
abbrev call_value : Value
call_value = obj (
    entry (codes "id") (str (codes "c1"))
      (entry (codes "function") (obj (entry (codes "name") (str (codes "find")) empty)) empty))

abbrev message_value : Value
message_value = obj (
    entry (codes "role") (str (codes "assistant"))
      (entry (codes "tool_calls") (arr (cons call_value nil)) empty))

abbrev answer_value : Value
answer_value = obj (
    entry (codes "choices")
      (arr (
        cons
          (obj (
            entry (codes "message") message_value
              (entry (codes "finish_reason") (str (codes "tool_calls")) empty)))
          nil))
      empty)

abbrev codec : Codec
codec = record {
  parse = λ t. err (leaf (codes "syntax"));
  decode = λ body. ok answer_value;
  text = λ v. [];
}

abbrev answer : Response
answer = record { status_code = 200; body = record { bytes = codes "x"; failure = none } }

abbrev response : ChatResponse
response = record {
  content = [];
  tool_calls = [];
  finish_reason = codes "tool_calls";
  usage = record { prompt_tokens = pos 0; completion_tokens = pos 0; total_tokens = pos 0 };
  model = [];
}

-- The call is not among the tool calls of the response.
answered : read_answer codec answer ≡ ok response
unfolding read_answer agenthub_skill_runtime.Ai.Openrouter.Wire.read_reply
    agenthub_skill_runtime.Executor.decode_field agenthub_skill_runtime.Base.equal_fold
    agenthub_skill_runtime.Ai.Decode.structs_from
answered = refl
