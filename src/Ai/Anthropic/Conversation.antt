-- ===== src/Ai/Anthropic/Conversation.antt =====
-- internal/ai/provider/anthropic/provider.go: what a request is to say of a conversation.
use agenthub_skill_runtime.Base.{
  ◌≡◌, Bool, true, false, List, [], ◌∷◌, ◌++◌, map, Bytes, codes, is_empty, eqb, if◌then◌else◌,
}
use agenthub_skill_runtime.Base.Int.{pos, is_zero}
use agenthub_skill_runtime.Executor.{ok}
use agenthub_skill_runtime.Ai.{Message, ToolCall, ChatOptions, role_system, role_tool}
use agenthub_skill_runtime.Ai.Transport.{Codec, is_valid_json}
use agenthub_skill_runtime.Ai.Anthropic.Wire.{
  Block, text_block, tool_use, tool_result, WireMessage, MessagesRequest, Marshal,
}
use agenthub_skill_runtime.Ai.Anthropic.Requests.{tool_of, tool_use_of, text_blocks}

abbrev pub first_nonempty : List Bytes → Bytes
first_nonempty [] = []
first_nonempty (s ∷ ss) = if is_empty s then first_nonempty ss else s

-- The texts of the system messages, and the other messages.
abbrev pub system_texts : List Message → List Bytes
system_texts [] = []
system_texts (m ∷ ms) =
    let rest = system_texts ms in if eqb m.role role_system then m.content ∷ rest else rest

abbrev pub spoken : List Message → List Message
spoken [] = []
spoken (m ∷ ms) = let rest = spoken ms in if eqb m.role role_system then rest else m ∷ rest

-- Who speaks on the wire, and what is said.
abbrev pub speaker : Bytes → List ToolCall → Bytes
speaker role [] = role
speaker role (tc ∷ tcs) = codes "assistant"

abbrev pub said : Codec → Bytes → List ToolCall → List Block
said codec content [] = text_block content ∷ []
said codec content (tc ∷ tcs) = text_blocks content ++ map (tool_use_of codec) (tc ∷ tcs)

module _ (codec : Codec) where
  abbrev pub role_of : Message → Bytes
  role_of m = if eqb m.role role_tool then codes "user" else speaker m.role m.tool_calls

  abbrev pub blocks_of : Message → List Block
  blocks_of m =
      if eqb m.role role_tool
      then tool_result m.tool_call_id m.content ∷ []
      else said codec m.content m.tool_calls

  -- Raw JSON is marshalled exactly if it is valid; a text always is.
  abbrev pub IsMarshalable : Block → Type 0
  IsMarshalable (text_block text) = Unit
  IsMarshalable (tool_use id name raw) = is_valid_json codec raw ≡ true
  IsMarshalable (tool_result id text) = Unit

module _ (codec : Codec) (marshal : Marshal) where
  -- A message and its form on the wire.
  abbrev pub Conveys : Message → WireMessage → Type 0
  Conveys m w = (w.role ≡ role_of codec m) × (marshal.blocks (blocks_of codec m) ≡ ok w.content)

  abbrev pub AllConveyed : List Message → List WireMessage → Type 0
  AllConveyed [] [] = Unit
  AllConveyed (m ∷ ms) (w ∷ ws) = Conveys m w × AllConveyed ms ws
  AllConveyed _ _ = ⊥

  pub record Built (messages : List Message) (opts : ChatOptions) (stream : Bool)
      (req : MessagesRequest) : Type 0 where
    pub model : req.model ≡ opts.model
    pub streamed : req.stream ≡ stream
    pub limited : is_zero req.max_tokens ≡ false
    pub limit : req.max_tokens ≡ (if is_zero opts.max_tokens then pos 4096 else opts.max_tokens)
    pub system : req.system ≡ first_nonempty (opts.system_msg ∷ system_texts messages)
    pub conveyed : AllConveyed (spoken messages) req.messages
    pub tools : req.tools ≡ map tool_of opts.tools
