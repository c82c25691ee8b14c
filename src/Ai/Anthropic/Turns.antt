-- ===== src/Ai/Anthropic/Turns.antt =====
-- internal/ai/provider/anthropic/provider.go: a reply that is sent back as a turn of the conversation.
use agenthub_skill_runtime.Base.{
  ◌≡◌, refl, ap, ◌∙◌, true, List, [], ◌∷◌, ◌++◌, append_assoc, append-nil, map, Option, none, some,
  Bytes, codes, eqb, eqb→eq, All, if◌then◌else◌, Bool-cases, inl, inr, arith,
}
use agenthub_skill_runtime.Executor.{Value, Result}
use agenthub_skill_runtime.Ai.{Message, ToolCall, ChatResponse}
use agenthub_skill_runtime.Ai.Transport.{Codec, is_valid_json}
use agenthub_skill_runtime.Ai.Anthropic.Wire.{
  Block, tool_use, WireMessage, Marshal, ContentBlock, MessagesResponse,
}
use agenthub_skill_runtime.Ai.Anthropic.Requests.{
  tool_use_of, text_blocks, as_message, convert_plain, convert_message,
}
use agenthub_skill_runtime.Ai.Anthropic.Replies.{
  arguments_of, tool_call_of, add_block, add_blocks, convert_response,
}

-- The message with which a client keeps a reply in the conversation.
abbrev pub assistant_turn : ChatResponse → Message
assistant_turn r = record {
  role = codes "assistant";
  content = r.content;
  tool_call_id = [];
  tool_calls = r.tool_calls;
  metadata = none;
}

-- The text of a reply, and its uses of tools as blocks of a request.
abbrev pub text_of : List ContentBlock → Bytes
text_of [] = []
text_of (b ∷ bs) = (if eqb b.kind (codes "text") then b.text else []) ++ text_of bs

module _ (codec : Codec) where
  abbrev pub uses_of : List ContentBlock → List Block
  uses_of [] = []
  uses_of (b ∷ bs) =
      let rest = uses_of bs in
      if eqb b.kind (codes "tool_use")
      then tool_use b.id b.name (arguments_of codec b.input) ∷ rest
      else rest

  abbrev calls_of : List ContentBlock → List ToolCall
  calls_of [] = []
  calls_of (b ∷ bs) =
      let rest = calls_of bs in
      if eqb b.kind (codes "tool_use") then tool_call_of codec b ∷ rest else rest

  abbrev extended : List ContentBlock → ChatResponse → ChatResponse
  extended bs resp = record resp {
    content = resp.content ++ text_of bs;
    tool_calls = resp.tool_calls ++ calls_of bs;
  }

  add_blocks_lem :
      (bs : List ContentBlock) (resp : ChatResponse) → add_blocks codec bs resp ≡ extended bs resp
  unfolding add_blocks add_block eqb
  add_blocks_lem [] resp = ground (arith, append-nil resp.content, append-nil resp.tool_calls)
  add_blocks_lem (b ∷ bs) resp = elim (Bool-cases (eqb b.kind (codes "text"))) [
    | inl text ↦
        let kind = eqb→eq b.kind (codes "text") text in
        add_blocks_lem bs (add_block codec b resp)
        ∙ ground (arith, kind, append_assoc resp.content b.text (text_of bs))
    | inr other ↦
        add_blocks_lem bs (add_block codec b resp)
        ∙ ground (arith, append_assoc resp.tool_calls (tool_call_of codec b ∷ []) (calls_of bs))
  ]

  convert_response_parts :
      (r : MessagesResponse)
      → ((convert_response codec r).content ≡ text_of r.content)
        × ((convert_response codec r).tool_calls ≡ calls_of r.content)
  unfolding convert_response
  convert_response_parts r = (
    ap (λ (m : ChatResponse). m.content) (add_blocks_lem r.content _),
    ap (λ (m : ChatResponse). m.tool_calls) (add_blocks_lem r.content _),
  )

  -- The text of a block's input is valid JSON.
  abbrev pub InputReads : Option Value → Type 0
  InputReads none = Unit
  InputReads (some v) = is_valid_json codec (codec.text v) ≡ true

  abbrev pub BlockReads : ContentBlock → Type 0
  BlockReads b = InputReads b.input

  arguments_kept :
      (input : Option Value)
      → InputReads input
      → let raw = arguments_of codec input in
        (if is_valid_json codec raw then raw else codes "{}") ≡ raw
  arguments_kept none h = ground arith
  arguments_kept (some v) h = ground arith

  tool_use_of-tool_call_of :
      (b : ContentBlock)
      → BlockReads b
      → tool_use_of codec (tool_call_of codec b) ≡ tool_use b.id b.name (arguments_of codec b.input)
  unfolding tool_use_of
  tool_use_of-tool_call_of b h = ap (tool_use b.id b.name) (arguments_kept b.input h)

  uses-calls_of :
      (bs : List ContentBlock)
      → All BlockReads bs
      → map (tool_use_of codec) (calls_of bs) ≡ uses_of bs
  uses-calls_of [] h = refl
  uses-calls_of (b ∷ bs) h = ground (arith, uses-calls_of bs h.1, tool_use_of-tool_call_of b h.0)

abbrev sent_calls : Marshal → Bytes → List Block → Result WireMessage
sent_calls marshal content uses =
    as_message (codes "assistant") (codes "anthropic: marshal assistant tool_use: ")
      (marshal.blocks (text_blocks content ++ uses))

module _ (codec : Codec) (marshal : Marshal) where
  convert_plain_calls :
      (m : Message) (calls : List ToolCall) (first : Block) (more : List Block)
      → map (tool_use_of codec) calls ≡ first ∷ more
      → convert_plain codec marshal m calls ≡ sent_calls marshal m.content (first ∷ more)
  unfolding convert_plain
  convert_plain_calls m [] first more e = absurd (cc)
  convert_plain_calls m (tc ∷ tcs) first more e = rw e

  -- A reply with uses of tools that is kept in the conversation is sent back as the assistant's: its
  -- text, if there is any, in one block, and its uses of tools, in order and with the identifiers,
  -- names and inputs that they came with; all this if the texts of the inputs are valid JSON.
  pub convert_message-convert_response :
      (r : MessagesResponse) (first : Block) (more : List Block)
      → All (BlockReads codec) r.content
      → uses_of codec r.content ≡ first ∷ more
      → convert_message codec marshal (assistant_turn (convert_response codec r))
        ≡ as_message
            (codes "assistant")
            (codes "anthropic: marshal assistant tool_use: ")
            (marshal.blocks (text_blocks (text_of r.content) ++ first ∷ more))
  unfolding convert_message convert_response eqb
  convert_message-convert_response r first more reads e =
      let resp = convert_response codec r in
      let (text, calls) = convert_response_parts codec r in
      convert_plain_calls (assistant_turn resp) resp.tool_calls first more
        (ap (map (tool_use_of codec)) calls ∙ (uses-calls_of codec r.content reads ∙ e))
      ∙ rw text
