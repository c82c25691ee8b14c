-- ===== src/Ai/Anthropic/Building.antt =====
-- internal/ai/provider/anthropic/provider.go: the request for a conversation.
use agenthub_skill_runtime.Base.{
  ◌≡◌, refl, ◌∙◌, Bool, true, false, List, [], ◌∷◌, ◌++◌, append_assoc, append-nil, map, Bytes,
  codes, is_empty, eqb, All, All-append, if◌then◌else◌, Bool-cases, inl, inr, arith,
}
use agenthub_skill_runtime.Base.Int.{ℤ, is_zero}
use agenthub_skill_runtime.Executor.{ok}
use agenthub_skill_runtime.Ai.{Message, ToolCall, ChatOptions, role_system, role_tool}
use agenthub_skill_runtime.Ai.Transport.{Codec, is_valid_json}
use agenthub_skill_runtime.Ai.Anthropic.Wire.{Block, WireMessage, MessagesRequest, Marshal}
use agenthub_skill_runtime.Ai.Anthropic.Requests.{
  tool_of, max_tokens_of, tool_use_of, text_blocks, as_message, convert_plain, convert_message,
  add_messages, build_request,
}
use agenthub_skill_runtime.Ai.Anthropic.Conversation.{
  first_nonempty, system_texts, spoken, speaker, said, role_of, blocks_of, IsMarshalable, Conveys,
  AllConveyed, Built,
}

module _ (codec : Codec) (marshal : Marshal) where
  -- A request that grows: the first system text that is not empty, and more messages.
  abbrev grown : MessagesRequest → List Message → List WireMessage → MessagesRequest
  grown req ms ws = record req {
    system = first_nonempty (req.system ∷ system_texts ms);
    messages = req.messages ++ ws;
  }

  add_messages-system :
      (m : Message) (ms : List Message) (req : MessagesRequest)
      → eqb m.role role_system ≡ true
      → add_messages codec marshal (m ∷ ms) req
        ≡ add_messages codec marshal ms
            (if is_empty req.system then record req { system = m.content } else req)
  unfolding add_messages
  add_messages-system m ms req e = rw (e, add_messages)

  add_messages-spoken :
      (m : Message) (ms : List Message) (req : MessagesRequest) (w : WireMessage)
      → eqb m.role role_system ≡ false
      → convert_message codec marshal m ≡ ok w
      → add_messages codec marshal (m ∷ ms) req
        ≡ add_messages codec marshal ms (record req { messages = req.messages ++ w ∷ [] })
  unfolding add_messages
  add_messages-spoken m ms req w e c = rw (e, add_messages, c)

  module _ (empty_reads : is_valid_json codec (codes "{}") ≡ true)
      (marshals : (bs : List Block)
        → All (IsMarshalable codec) bs
        → (raw : Bytes) × (marshal.blocks bs ≡ ok raw)) where
    tool_use_of-IsMarshalable : (tc : ToolCall) → IsMarshalable codec (tool_use_of codec tc)
    unfolding tool_use_of
    tool_use_of-IsMarshalable tc = ground (arith, empty_reads)

    uses-IsMarshalable :
        (calls : List ToolCall) → All (IsMarshalable codec) (map (tool_use_of codec) calls)
    uses-IsMarshalable [] = tt
    uses-IsMarshalable (tc ∷ tcs) = (tool_use_of-IsMarshalable tc, uses-IsMarshalable tcs)

    text_blocks-IsMarshalable : (content : Bytes) → All (IsMarshalable codec) (text_blocks content)
    text_blocks-IsMarshalable [] = tt
    text_blocks-IsMarshalable (c ∷ s) = (tt, tt)

    said-IsMarshalable :
        (content : Bytes) (calls : List ToolCall)
        → All (IsMarshalable codec) (said codec content calls)
    said-IsMarshalable content [] = (tt, tt)
    said-IsMarshalable content (tc ∷ tcs) =
        All-append (IsMarshalable codec) (text_blocks content) (map (tool_use_of codec) (tc ∷ tcs))
          (text_blocks-IsMarshalable content) (uses-IsMarshalable (tc ∷ tcs))

    blocks_of-IsMarshalable : (m : Message) → All (IsMarshalable codec) (blocks_of codec m)
    blocks_of-IsMarshalable m = elim (Bool-cases (eqb m.role role_tool)) [
      | inl tool ↦ rw (tool, if◌then◌else◌) (tt, tt)
      | inr other ↦ rw (other, if◌then◌else◌) (said-IsMarshalable m.content m.tool_calls)
    ]

    convert_plain-said :
        (m : Message) (calls : List ToolCall)
        → (what : Bytes) × (convert_plain codec marshal m calls
            ≡ as_message (speaker m.role calls) what (marshal.blocks (said codec m.content calls)))
    unfolding convert_plain
    convert_plain-said m [] = (codes "anthropic: marshal text content: ", refl)
    convert_plain-said m (tc ∷ tcs) = (codes "anthropic: marshal assistant tool_use: ", refl)

    convert_message-blocks :
        (m : Message)
        → (what : Bytes) × (convert_message codec marshal m
            ≡ as_message (role_of codec m) what (marshal.blocks (blocks_of codec m)))
    unfolding convert_message
    convert_message-blocks m = elim (Bool-cases (eqb m.role role_tool)) [
      | inl tool ↦ (codes "anthropic: marshal tool result: ", rw (tool, if◌then◌else◌))
      | inr other ↦
          let (what, e) = convert_plain-said m m.tool_calls in (what, rw (other, if◌then◌else◌) e)
    ]

    convert_message-Conveys :
        (m : Message)
        → (w : WireMessage) × (convert_message codec marshal m ≡ ok w) × Conveys codec marshal m w
    convert_message-Conveys m =
        let (raw, e) = marshals (blocks_of codec m) (blocks_of-IsMarshalable m) in
        let (what, c) = convert_message-blocks m in
        (record { role = role_of codec m; content = raw }, c ∙ rw e, (refl, e))

    add_messages-grown :
        (ms : List Message) (req : MessagesRequest)
        → (ws : List WireMessage) × AllConveyed codec marshal (spoken ms) ws
          × (add_messages codec marshal ms req ≡ ok (grown req ms ws))
    unfolding add_messages
    add_messages-grown [] req = ([], tt, ground (arith, append-nil req.messages))
    add_messages-grown (m ∷ ms) req = elim (Bool-cases (eqb m.role role_system)) [
      | inl system ↦
          let (ws, conveyed, e) =
            add_messages-grown ms
              (if is_empty req.system then record req { system = m.content } else req) in
          (
            ws,
            rw (system, if◌then◌else◌) conveyed,
            add_messages-system m ms req system ∙ (e ∙ ground arith),
          )
      | inr other ↦
          let (w, c, conveys) = convert_message-Conveys m in
          let (ws, conveyed, e) =
            add_messages-grown ms (record req { messages = req.messages ++ w ∷ [] }) in
          (
            w ∷ ws,
            rw (other, if◌then◌else◌) (conveys, conveyed),
            add_messages-spoken m ms req w other c
                ∙ (e ∙ ground (arith, append_assoc req.messages (w ∷ []) ws)),
          )
    ]

    limit_nonzero : (n : ℤ) → is_zero (max_tokens_of n) ≡ false
    limit_nonzero n = ground arith

    -- If the text {} is valid JSON, and blocks are marshalled whose raw parts are, then a request is
    -- built for every conversation, also if a tool call has arguments that are no JSON. Its system text
    -- is the first that is not empty, of the option and the system messages in their order; later ones
    -- are not sent. The other messages are sent in their order: a tool's result as the user's, a turn
    -- with tool calls as the assistant's, with its text first, and any other as a text of its role. The
    -- limit of tokens is the given one, or 4096 for zero; it is never zero.
    pub build_request-Built :
        (messages : List Message) (opts : ChatOptions) (stream : Bool)
        → (req : MessagesRequest) × (build_request codec marshal messages opts stream ≡ ok req)
          × Built codec marshal messages opts stream req
    unfolding build_request
    build_request-Built messages opts stream =
        let start : MessagesRequest = record {
          model = opts.model;
          max_tokens = max_tokens_of opts.max_tokens;
          system = opts.system_msg;
          messages = [];
          tools = [];
          stream = stream;
        } in
        let (ws, conveyed, e) = add_messages-grown messages start in
        (
          record (grown start messages ws) { tools = map tool_of opts.tools },
          rw e,
          record {
            model = refl;
            streamed = refl;
            limited = limit_nonzero opts.max_tokens;
            limit = refl;
            system = refl;
            conveyed = conveyed;
            tools = refl;
          },
        )
