-- ===== src/Ai/Openrouter/Tags.antt =====
-- internal/ai/provider/openrouter/provider.go: the tags by which an answer is read.
use mathlib.Core.Path.{subst}
use agenthub_skill_runtime.Base.{
  ◌≡◌, refl, true, List, [], ◌∷◌, Bytes, codes, All, leb, if◌then◌else◌, Bool-cases, inl, inr,
  arith,
}
use agenthub_skill_runtime.Executor.{
  Value, null, bool, float, int, str, arr, obj, Values, nil, cons, Object, Result, ok, ◌>>=◌,
  >>=-eq-ok, Result-cases, prefixed, or_wrap,
}
use agenthub_skill_runtime.Ai.{Message, ChatResponse}
use agenthub_skill_runtime.Ai.Transport.{Codec, Response}
use agenthub_skill_runtime.Ai.Decode.{
  set_struct, set_structs, structs_from, struct_field, structs_field, read_tool_call, no_tool_call,
}
use agenthub_skill_runtime.Ai.Openrouter.Wire.{
  ChatChoice, ChatReply, no_message, no_choice, no_reply, read_message, read_choice, read_reply,
}
use agenthub_skill_runtime.Ai.Openrouter.Chat.{first_choice, read_answer}
use agenthub_skill_runtime.Ai.Openrouter.Keys.{
  lacks, lacks_items, lacks_entries, decode_field-absent, decode_field-keeps, set_struct-keeps,
}

abbrev NoCalls : Message → Type 0
NoCalls m = m.tool_calls ≡ []

abbrev NoCallsIn : ChatChoice → Type 0
NoCallsIn c = NoCalls c.message

read_message-NoCalls :
    (o : Object) (m : Message) → lacks_entries o ≡ true → read_message o ≡ ok m → NoCalls m
unfolding read_message
read_message-NoCalls o m h e =
    ground (arith, decode_field-absent (set_structs read_tool_call no_tool_call) o [] h)

message_field-NoCalls :
    (name : Bytes) (o : Object) (m : Message)
    → lacks_entries o ≡ true
    → struct_field name read_message no_message o ≡ ok m
    → NoCalls m
message_field-NoCalls name o m h e =
    decode_field-keeps NoCalls name (set_struct read_message)
      (set_struct-keeps NoCalls read_message read_message-NoCalls) o no_message m h refl e

read_choice-NoCallsIn :
    (name : Bytes) (o : Object) (c : ChatChoice)
    → lacks_entries o ≡ true
    → read_choice name o ≡ ok c
    → NoCallsIn c
unfolding read_choice
read_choice-NoCallsIn name o c h e = ground (arith, message_field-NoCalls name o c.message h)

structs_from-NoCallsIn :
    (name : Bytes) (vs : Values) (cs : List ChatChoice)
    → lacks_items vs ≡ true
    → structs_from (read_choice name) no_choice vs ≡ ok cs
    → All NoCallsIn cs
unfolding structs_from lacks
structs_from-NoCallsIn name nil cs h e = let none : [] ≡ cs = cc in subst (All NoCallsIn) none tt
structs_from-NoCallsIn name (cons v vs) cs h e =
    let (c, first, e1) =
      >>=-eq-ok (set_struct (read_choice name) v no_choice)
        (λ c. structs_from (read_choice name) no_choice vs >>= λ more. ok (c ∷ more)) e in
    let (more, later, e2) =
      >>=-eq-ok (structs_from (read_choice name) no_choice vs) (λ more. ok (c ∷ more)) e1 in
    let all : (c ∷ more) ≡ cs = cc in
    let hv : lacks v ≡ true = ground arith in
    let hvs : lacks_items vs ≡ true = ground arith in
    subst (All NoCallsIn) all (
      set_struct-keeps NoCallsIn (read_choice name) (read_choice-NoCallsIn name) v no_choice c hv
          refl first,
      structs_from-NoCallsIn name vs more hvs later,
    )

set_structs-keeps :
    (name : Bytes) (v : Value) (a b : List ChatChoice)
    → lacks v ≡ true
    → All NoCallsIn a
    → set_structs (read_choice name) no_choice v a ≡ ok b
    → All NoCallsIn b
unfolding lacks
set_structs-keeps name null a b h p e = let none : [] ≡ b = cc in subst (All NoCallsIn) none tt
set_structs-keeps name (arr vs) a b h p e = structs_from-NoCallsIn name vs b h e
set_structs-keeps name (bool x) a b h p e = absurd (cc)
set_structs-keeps name (float x) a b h p e = absurd (cc)
set_structs-keeps name (int x) a b h p e = absurd (cc)
set_structs-keeps name (str x) a b h p e = absurd (cc)
set_structs-keeps name (obj x) a b h p e = absurd (cc)

choices_field-NoCallsIn :
    (o : Object) (cs : List ChatChoice)
    → lacks_entries o ≡ true
    → structs_field (codes "choices") (read_choice (codes "message")) no_choice o ≡ ok cs
    → All NoCallsIn cs
choices_field-NoCallsIn o cs h e =
    decode_field-keeps (All NoCallsIn) (codes "choices")
      (set_structs (read_choice (codes "message")) no_choice) (set_structs-keeps (codes "message"))
      o [] cs h tt e

read_reply-NoCallsIn :
    (o : Object) (r : ChatReply)
    → lacks_entries o ≡ true
    → read_reply o ≡ ok r
    → All NoCallsIn r.choices
unfolding read_reply
read_reply-NoCallsIn o r h e = ground (arith, choices_field-NoCallsIn o r.choices h)

first_choice-NoCalls :
    (cr : ChatReply) (cs : List ChatChoice) (r : ChatResponse)
    → All NoCallsIn cs
    → first_choice cr cs ≡ ok r
    → r.tool_calls ≡ []
first_choice-NoCalls cr [] r h e = absurd (cc)
first_choice-NoCalls cr (c ∷ cs) r h e = ground (arith, h.0)

answered :
    (v : Value) (r : ChatResponse) (what : Bytes)
    → lacks v ≡ true
    → (or_wrap what (set_struct read_reply v no_reply) >>= λ cr. first_choice cr cr.choices) ≡ ok r
    → r.tool_calls ≡ []
answered v r what h e = elim (Result-cases (set_struct read_reply v no_reply)) [
  | inl (cr, read) ↦
      first_choice-NoCalls cr cr.choices r
        (set_struct-keeps (λ (x : ChatReply). All NoCallsIn x.choices) read_reply
          read_reply-NoCallsIn v no_reply cr h tt read)
        (rw (read, or_wrap) at e)
  | inr (reason, refused) ↦
      let stuck : Result.err (prefixed what reason) ≡ ok r = rw (refused, or_wrap) at e in
      absurd (cc)
]

-- Whatever JSON OpenRouter answers with, a response of Chat has tool calls only if some object of
-- it has a key that equals toolCalls but for case. So tool calls under the key tool_calls of the
-- OpenAI format are dropped.
pub read_answer-calls :
    (codec : Codec) (resp : Response) (v : Value) (r : ChatResponse)
    → codec.decode resp.body ≡ ok v
    → lacks v ≡ true
    → read_answer codec resp ≡ ok r
    → r.tool_calls ≡ []
unfolding read_answer
read_answer-calls codec resp v r d h e = elim (Bool-cases (leb 400 resp.status_code)) [
  | inl refused ↦ absurd (ground arith)
  | inr accepted ↦
      answered v r (codes "openrouter: decode response: ") h
        (rw (accepted, read_answer, if◌then◌else◌, d) at e)
]
