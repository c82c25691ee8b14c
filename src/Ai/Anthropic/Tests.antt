-- ===== src/Ai/Anthropic/Tests.antt =====
-- Anthropic's provider at concrete conversations and streams.
use agenthub_skill_runtime.Base.{
  ◌≡◌, refl, false, List, [], ◌∷◌, ◌++◌, Option, none, some, Bytes, codes, eqb, contains_byte,
  equal_fold, to_lower, All, if◌then◌else◌,
}
use agenthub_skill_runtime.Base.Int.{pos}
use agenthub_skill_runtime.Executor.{
  Value, str, obj, Object, empty, entry, Float64, Error, leaf, Result, ok, err, decode_field,
}
use agenthub_skill_runtime.Ai.{Message, ToolCall, ChatOptions, system_message}
use agenthub_skill_runtime.Ai.Transport.{Codec, Response}
use agenthub_skill_runtime.Ai.Events.{drop_cr}
use agenthub_skill_runtime.Ai.Events.Lines.{spell_lines}
use agenthub_skill_runtime.Ai.Anthropic.Wire.{
  Block, text_block, tool_use, tool_result, MessagesRequest, Marshal, MessagesResponse,
  StreamEventEnvelope, ContentDelta, read_event, read_delta, no_usage,
}
use agenthub_skill_runtime.Ai.Anthropic.Requests.{as_message, convert_message, build_request}
use agenthub_skill_runtime.Ai.Anthropic.Replies.{event_of, convert_response}
use agenthub_skill_runtime.Ai.Anthropic.Chat.{stream_chunks, at_end}
use agenthub_skill_runtime.Ai.Anthropic.Conversation.{Built}
use agenthub_skill_runtime.Ai.Anthropic.Building.{build_request-Built}
use agenthub_skill_runtime.Ai.Anthropic.Turns.{assistant_turn, convert_message-convert_response}
use agenthub_skill_runtime.Ai.Anthropic.Streaming.{
  text_delta, Sent, IsSent, lines_of, all_chunks, stream_chunks-events,
}

abbrev text_event : Object
text_event = entry (codes "type") (str (codes "content_block_delta")) (
    entry (codes "delta")
      (obj (
        entry (codes "type") (str (codes "text_delta"))
          (entry (codes "text") (str (codes "Hi")) empty)))
      empty)

abbrev stop_event : Object
stop_event = entry (codes "type") (str (codes "message_stop")) empty

abbrev refusal : Object
refusal =
    entry (codes "error") (obj (entry (codes "message") (str (codes "overloaded")) empty)) empty

-- The texts T and S stand for two events, and {} for the empty object; a body that has not broken off
-- is a refusal.
abbrev parse_text : Bytes → Result Value
parse_text t =
    if eqb t (codes "T")
    then ok (obj text_event)
    else if eqb t (codes "S")
    then ok (obj stop_event)
    else if eqb t (codes "{}")
    then ok (obj empty)
    else err (leaf (codes "syntax"))

abbrev decode_body : Option Error → Result Value
decode_body none = ok (obj refusal)
decode_body (some e) = err e

abbrev codec : Codec
codec = record {
  parse = parse_text;
  decode = λ body. decode_body body.failure;
  text = λ v. codes "{}";
}

abbrev block_text : Block → Bytes
block_text (text_block t) = t
block_text (tool_use id name raw) = name ++ raw
block_text (tool_result id t) = t

abbrev block_texts : List Block → Bytes
block_texts [] = []
block_texts (b ∷ bs) = block_text b ++ block_texts bs

abbrev marshal : Marshal
marshal = record { request = λ req. ok req.model; blocks = λ bs. ok (block_texts bs) }

abbrev zero_float : Float64
zero_float = record { negative = false; mantissa = 0; places = 0 }

abbrev options : ChatOptions
options = record {
  model = codes "claude";
  max_tokens = pos 0;
  temperature = zero_float;
  top_p = zero_float;
  tools = [];
  system_msg = [];
}

-- A call whose arguments are no JSON.
abbrev bad_call : ToolCall
bad_call = record {
  id = codes "c1";
  kind = codes "function";
  function = record { name = codes "find"; arguments = codes "oops" };
}

abbrev turns : List Message
turns =
    system_message (codes "Be brief.")
    ∷ record {
      role = codes "assistant";
      content = [];
      tool_call_id = [];
      tool_calls = bad_call ∷ [];
      metadata = none;
    }
    ∷ []

build_request-Built_example :
    (req : MessagesRequest) × (build_request codec marshal turns options false ≡ ok req)
    × Built codec marshal turns options false req
unfolding eqb
build_request-Built_example =
    build_request-Built codec marshal refl (λ bs h. (block_texts bs, refl)) turns options false

abbrev reply : MessagesResponse
reply = record {
  id = [];
  model = codes "claude";
  content =
      record { kind = codes "text"; text = codes "Wait."; id = []; name = []; input = none }
      ∷ record {
        kind = codes "tool_use";
        text = [];
        id = codes "c1";
        name = codes "find";
        input = some (obj empty);
      }
      ∷ [];
  stop_reason = codes "tool_use";
  usage = no_usage;
}

convert_message-convert_response_example :
    convert_message codec marshal (assistant_turn (convert_response codec reply))
    ≡ as_message
        (codes "assistant")
        (codes "anthropic: marshal assistant tool_use: ")
        (ok (codes "Wait.find{}"))
unfolding eqb
convert_message-convert_response_example =
    convert_message-convert_response codec marshal reply
      (tool_use (codes "c1") (codes "find") (codes "{}")) [] (tt, (refl, tt)) refl

abbrev refused : Response
refused = record { status_code = 529; body = record { bytes = codes "x"; failure = none } }

abbrev delta : ContentDelta
delta = record { kind = codes "text_delta"; text = codes "Hi"; partial_json = []; stop_reason = [] }

abbrev event_named : Bytes → Option ContentDelta → StreamEventEnvelope
event_named kind d = record { kind = kind; index = pos 0; delta = d; usage = none }

abbrev sent : List Sent
sent =
    record { event = text_delta (codes "Hi"); name = codes "content_block_delta"; text = codes "T" }
    ∷ []

sent-IsSent : All (IsSent codec) sent
unfolding event_of read_event read_delta decode_field equal_fold to_lower eqb contains_byte drop_cr
sent-IsSent = (
  record {
    named = record { whole = refl; fits = refl; no_cr = refl };
    given = record { whole = refl; fits = refl; no_cr = refl };
    env = event_named (codes "content_block_delta") (some delta);
    read = refl;
    written = (delta, (refl, refl), refl, refl);
  },
  tt,
)

stream_chunks-events_example :
    (stream_chunks codec (record {
      bytes = spell_lines (lines_of sent) ++ (codes "data: S" ++ b'\n' ∷ codes "data: T");
      failure = some (leaf (codes "reset"));
    })
      ≡ all_chunks sent)
    × (stream_chunks codec
          (record { bytes = spell_lines (lines_of sent); failure = some (leaf (codes "reset")) })
        ≡ all_chunks sent ++ at_end (some (leaf (codes "reset"))))
unfolding event_of read_event decode_field equal_fold to_lower eqb contains_byte drop_cr
stream_chunks-events_example =
    stream_chunks-events codec sent sent-IsSent (codes "S") (codes "data: T")
      (event_named (codes "message_stop") none) (some (leaf (codes "reset")))
      (record { whole = refl; fits = refl; no_cr = refl }) refl refl
