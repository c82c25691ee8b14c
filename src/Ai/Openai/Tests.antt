-- ===== src/Ai/Openai/Tests.antt =====
-- OpenAI's stream at concrete events.
use agenthub_skill_runtime.Base.{
  ◌≡◌, refl, List, [], ◌∷◌, ◌++◌, none, some, codes, eqb, contains_byte, equal_fold, to_lower, All,
  if◌then◌else◌,
}
use agenthub_skill_runtime.Base.Int.{pos}
use agenthub_skill_runtime.Executor.{
  Value, null, str, arr, obj, nil, cons, empty, entry, leaf, ok, err, decode_field,
}
use agenthub_skill_runtime.Ai.{StreamChunk}
use agenthub_skill_runtime.Ai.Transport.{Codec}
use agenthub_skill_runtime.Ai.Decode.{structs_from}
use agenthub_skill_runtime.Ai.Events.{drop_cr}
use agenthub_skill_runtime.Ai.Events.Lines.{spell_lines}
use agenthub_skill_runtime.Ai.Openai.Wire.{StreamChoice, read_stream_event}
use agenthub_skill_runtime.Ai.Openai.Replies.{choices_of}
use agenthub_skill_runtime.Ai.Openai.Chat.{stream_chunks, at_end}
use agenthub_skill_runtime.Ai.Openai.Streaming.{
  AreTold, Sent, IsSent, lines_of, all_choices, data_line, done, stream_chunks-choices,
}

abbrev choice_value : Value
choice_value = obj (
    entry (codes "delta") (obj (entry (codes "content") (str (codes "Hi")) empty))
      (entry (codes "finish_reason") null empty))

abbrev event_value : Value
event_value = obj (entry (codes "choices") (arr (cons choice_value nil)) empty)

-- The text E stands for an event.
abbrev codec : Codec
codec = record {
  parse = λ t. if eqb t (codes "E") then ok event_value else err (leaf (codes "syntax"));
  decode = λ body. err (leaf (codes "syntax"));
  text = λ v. [];
}

abbrev choice : StreamChoice
choice = record {
  index = pos 0;
  delta = record { role = []; content = some (codes "Hi"); tool_calls = [] };
  finish_reason = none;
}

abbrev sent : List Sent
sent = record { text = codes "E"; choices = choice ∷ [] } ∷ []

sent-IsSent : All (IsSent codec) sent
unfolding choices_of read_stream_event structs_from decode_field equal_fold to_lower eqb
    contains_byte drop_cr
sent-IsSent = (
  record {
    given = record { whole = refl; fits = refl; no_cr = refl };
    not_done = refl;
    read = refl;
  },
  tt,
)

stream_chunks-choices_example :
    (chunks : List StreamChunk) × AreTold (all_choices sent) chunks
    × (stream_chunks codec (record {
      bytes = spell_lines (lines_of sent) ++ (data_line done ++ b'\n' ∷ codes "data: E");
      failure = some (leaf (codes "reset"));
    })
        ≡ chunks)
    × (stream_chunks codec
          (record { bytes = spell_lines (lines_of sent); failure = some (leaf (codes "reset")) })
        ≡ chunks ++ at_end (some (leaf (codes "reset"))))
stream_chunks-choices_example =
    stream_chunks-choices codec sent sent-IsSent (codes "data: E") (some (leaf (codes "reset")))
