-- ===== src/Ai/Openai/Streaming.antt =====
-- internal/ai/provider/openai/provider.go: the stream of a completion.
use mathlib.Core.List.{map-append}
use agenthub_skill_runtime.Base.{
  ◌≡◌, refl, ◌∙◌, false, List, [], ◌∷◌, ◌++◌, append-nil, map, Option, none, some, inl, inr, ◌⊎◌,
  Bytes, codes, eqb, All, contains_byte,
}
use agenthub_skill_runtime.Executor.{Error, ok}
use agenthub_skill_runtime.Ai.{ToolCall, StreamChunk}
use agenthub_skill_runtime.Ai.Transport.{Codec}
use agenthub_skill_runtime.Ai.Events.{drop_cr, go_on}
use agenthub_skill_runtime.Ai.Events.Lines.{
  IsLine, Sends, nothing, more, pump_whole, pump_stopped, spell_lines,
}
use agenthub_skill_runtime.Ai.Openai.Wire.{StreamChoice}
use agenthub_skill_runtime.Ai.Openai.Replies.{
  text_or_empty, first_call, chunk_of, choices_of, react_data, react_line,
}
use agenthub_skill_runtime.Ai.Openai.Chat.{at_end, stream_chunks}

-- An event's data on the wire and its choices.
pub record Sent : Type 0 where
  pub text : Bytes
  pub choices : List StreamChoice

abbrev pub data_line : Bytes → Bytes
data_line text = codes "data: " ++ text

abbrev pub done : Bytes
done = codes "[DONE]"

abbrev pub lines_of : List Sent → List Bytes
lines_of [] = []
lines_of (s ∷ rest) = data_line s.text ∷ [] ∷ lines_of rest

abbrev pub all_choices : List Sent → List StreamChoice
all_choices [] = []
all_choices (s ∷ rest) = s.choices ++ all_choices rest

-- A text that is left out, or the text.
abbrev pub IsTextOf : Option Bytes → Bytes → Type 0
IsTextOf given text = ((given ≡ none) × (text ≡ [])) ⊎ (given ≡ some text)

-- The first of the pieces of tool calls, with its id, its name and the piece of its arguments.
pub record IsPieceOf (tc : ToolCall) (piece : ToolCall) : Type 0 where
  pub id : piece.id ≡ tc.id
  pub kind : piece.kind ≡ tc.kind
  pub name : piece.function.name ≡ tc.function.name
  pub arguments : piece.function.arguments ≡ tc.function.arguments

abbrev pub IsFirstOf : List ToolCall → Option ToolCall → Type 0
IsFirstOf [] piece = piece ≡ none
IsFirstOf (tc ∷ tcs) piece = (x : ToolCall) × (piece ≡ some x) × IsPieceOf tc x

-- The chunk that tells a choice.
pub record Tells (c : StreamChoice) (chunk : StreamChunk) : Type 0 where
  pub delta : IsTextOf c.delta.content chunk.delta
  pub finish_reason : IsTextOf c.finish_reason chunk.finish_reason
  pub tool_call : IsFirstOf c.delta.tool_calls chunk.tool_call_delta
  pub no_error : chunk.error ≡ none

-- A chunk for each choice, in order.
abbrev pub AreTold : List StreamChoice → List StreamChunk → Type 0
AreTold [] [] = Unit {0}
AreTold [] (chunk ∷ chunks) = ⊥
AreTold (c ∷ cs) [] = ⊥
AreTold (c ∷ cs) (chunk ∷ chunks) = Tells c chunk × AreTold cs chunks

text_or_empty-IsTextOf : (given : Option Bytes) → IsTextOf given (text_or_empty given)
text_or_empty-IsTextOf none = inl (refl, refl)
text_or_empty-IsTextOf (some s) = inr refl

first_call-IsFirstOf : (tcs : List ToolCall) → IsFirstOf tcs (first_call tcs)
first_call-IsFirstOf [] = refl
first_call-IsFirstOf (tc ∷ tcs) =
    (_, refl, record { id = refl; kind = refl; name = refl; arguments = refl })

chunk_of-Tells : (c : StreamChoice) → Tells c (chunk_of c)
unfolding chunk_of
chunk_of-Tells c = record {
  delta = text_or_empty-IsTextOf c.delta.content;
  finish_reason = text_or_empty-IsTextOf c.finish_reason;
  tool_call = first_call-IsFirstOf c.delta.tool_calls;
  no_error = refl;
}

map-AreTold : (cs : List StreamChoice) → AreTold cs (map chunk_of cs)
map-AreTold [] = tt
map-AreTold (c ∷ cs) = (chunk_of-Tells c, map-AreTold cs)

module _ (codec : Codec) where
  pub record IsSent (s : Sent) : Type 0 where
    pub given : IsLine (data_line s.text)
    pub not_done : eqb s.text done ≡ false
    pub read : choices_of codec s.text ≡ ok s.choices

  react_line-IsSent :
      (s : Sent) → IsSent s → react_line codec (data_line s.text) ≡ go_on (map chunk_of s.choices)
  unfolding react_line react_data
  react_line-IsSent s h = rw (h.not_done) (rw (h.read, react_data))

  IsSent-Sends :
      (sent : List Sent)
      → All IsSent sent
      → Sends (react_line codec) (lines_of sent) (map chunk_of (all_choices sent))
  unfolding react_line
  IsSent-Sends [] h = nothing
  IsSent-Sends (s ∷ rest) h =
      rw (map-append) (more (react_line-IsSent s h.0) (more refl (IsSent-Sends rest h.1)))

  lines_of-IsLine : (sent : List Sent) → All IsSent sent → All IsLine (lines_of sent)
  unfolding contains_byte drop_cr
  lines_of-IsLine [] h = tt
  lines_of-IsLine (s ∷ rest) h =
      let empty : IsLine [] = record { whole = refl; fits = refl; no_cr = refl } in
      (h.0.given, (empty, lines_of-IsLine rest h.1))

  -- Of events that stand each on a line that fits the scanner's buffer, the reader gets one chunk for
  -- each choice, in order, with its text and its reason to finish, empty where they are left out, the
  -- first of its pieces of tool calls, if there is one, and no error. If the end marker follows, the channel
  -- is closed there, whatever stands behind it and however the body ends; else at the body's end, behind
  -- the error with which it has broken off, if there was one.
  pub stream_chunks-choices :
      (sent : List Sent)
      → All IsSent sent
      → (rest : Bytes) (failure : Option Error)
      → (chunks : List StreamChunk) × AreTold (all_choices sent) chunks
        × (stream_chunks codec (record {
          bytes = spell_lines (lines_of sent) ++ (data_line done ++ b'\n' ∷ rest);
          failure = failure;
        })
            ≡ chunks)
        × (stream_chunks codec (record { bytes = spell_lines (lines_of sent); failure = failure })
            ≡ chunks ++ at_end failure)
  unfolding stream_chunks contains_byte drop_cr react_line
  stream_chunks-choices sent h rest failure = (
    map chunk_of (all_choices sent),
    map-AreTold (all_choices sent),
    pump_stopped (IsSent-Sends sent h) (data_line done) rest [] failure at_end
          (lines_of-IsLine sent h) (record { whole = refl; fits = refl; no_cr = refl }) refl
        ∙ append-nil (map chunk_of (all_choices sent)),
    pump_whole (IsSent-Sends sent h) failure at_end (lines_of-IsLine sent h),
  )
