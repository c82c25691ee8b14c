-- ===== src/Ai/Openrouter/Chat.antt =====
-- internal/ai/provider/openrouter/provider.go: the provider, Chat and ChatStream.
use agenthub_skill_runtime.Base.{
  Bool, true, false, List, [], ◌∷◌, ◌++◌, none, some, Bytes, codes, is_empty, eqb, cut_prefix,
  trim_right_slash, leb, if◌then◌else◌,
}
use agenthub_skill_runtime.Base.Decimal.{itoa}
use agenthub_skill_runtime.Base.Assoc.{Assoc}
use agenthub_skill_runtime.Executor.{Error, leaf, prefixed, Result, ok, err, ◌>>=◌, or_wrap}
use agenthub_skill_runtime.Http.Execute.{header_set}
use agenthub_skill_runtime.Ai.{
  Message, Tool, ChatOptions, ChatResponse, StreamChunk, ChatModel, no_chunk, system_message,
}
use agenthub_skill_runtime.Ai.Transport.{Codec, Body, Response, Network, send_request}
use agenthub_skill_runtime.Ai.Decode.{set_struct}
use agenthub_skill_runtime.Ai.Events.{Reaction, go_on, return, continue, scan_lines, pump}
use agenthub_skill_runtime.Ai.Openai.Replies.{usage_of}
use agenthub_skill_runtime.Ai.Openrouter.Wire.{
  ChatRequest, ChatChoice, ChatReply, no_reply, read_reply, read_event,
}

pub record Provider : Type 0 where
  pub api_key : Bytes
  pub base_url : Bytes
  pub app_name : Bytes

unfoldable pub new : Bytes → Bytes → Bytes → Provider
new api_key base_url app_name = record {
  api_key = api_key;
  base_url =
      trim_right_slash
        (if is_empty base_url then codes "https://openrouter.ai/api/v1" else base_url);
  app_name = app_name;
}

abbrev pub with_title : Bytes → Assoc Bytes → Assoc Bytes
with_title app_name h = if is_empty app_name then h else header_set (codes "X-Title") app_name h

unfoldable pub headers : Provider → Assoc Bytes
headers p = with_title p.app_name (
    header_set (codes "HTTP-Referer") (codes "https://agenthub.dev") (
      header_set (codes "Authorization") (codes "Bearer " ++ p.api_key)
        (header_set (codes "Content-Type") (codes "application/json") [])))

unfoldable pub stream_headers : Provider → Assoc Bytes
unfolding headers
stream_headers p = header_set (codes "Accept") (codes "text/event-stream") (headers p)

abbrev pub endpoint : Provider → Bytes
endpoint p = p.base_url ++ codes "/chat/completions"

abbrev pub with_system : Bytes → List Message → List Message
with_system text messages = if is_empty text then messages else system_message text ∷ messages

unfoldable pub request_of : List Message → ChatOptions → Bool → List Tool → ChatRequest
request_of messages opts stream tools = record {
  model = opts.model;
  messages = with_system opts.system_msg messages;
  stream = stream;
  max_tokens = opts.max_tokens;
  temperature = opts.temperature;
  top_p = opts.top_p;
  tools = tools;
}

-- The first choice of a reply.
abbrev pub first_choice : ChatReply → List ChatChoice → Result ChatResponse
first_choice cr [] = err (leaf (codes "openrouter: empty choices"))
first_choice cr (c ∷ cs) = ok (record {
  content = c.message.content;
  tool_calls = c.message.tool_calls;
  finish_reason = c.finish_reason;
  usage = usage_of cr.usage;
  model = cr.model;
})

abbrev pub broken : Error → StreamChunk
broken e = record no_chunk { error = some e }

-- An event's first choice, as it is sent.
unfoldable pub react_choices : List ChatChoice → Reaction
react_choices [] = continue
react_choices (c ∷ cs) =
    go_on (record no_chunk { delta = c.message.content; finish_reason = c.finish_reason } ∷ [])

module _ (codec : Codec) where
  unfoldable pub choices_of : Bytes → Result (List ChatChoice)
  choices_of text = codec.parse text >>= λ v. set_struct read_event v []

  unfoldable pub react_data : Bytes → Reaction
  unfolding choices_of react_choices eqb
  react_data text = if eqb text (codes "[DONE]") then return [] else elim (choices_of text) [
    | ok choices ↦ react_choices choices
    | err e ↦ return (broken (prefixed (codes "openrouter: decode chunk: ") e) ∷ [])
  ]

  unfoldable pub react_line : Bytes → Reaction
  unfolding react_data cut_prefix
  react_line line = elim (cut_prefix line (codes "data: ")) [
    | none ↦ continue
    | some text ↦ react_data text
  ]

  -- What the goroutine sends; scanner.Err() is not asked.
  unfoldable pub stream_chunks : Body → List StreamChunk
  stream_chunks body = pump react_line (scan_lines body).lines []

  unfoldable pub read_answer : Response → Result ChatResponse
  read_answer resp =
      if leb 400 resp.status_code
      then err (leaf (codes "openrouter: status " ++ itoa resp.status_code))
      else (or_wrap (codes "openrouter: decode response: ")
            (codec.decode resp.body >>= λ v. set_struct read_reply v no_reply)
          >>= λ cr. first_choice cr cr.choices)

  unfoldable pub read_stream : Response → Result (List StreamChunk)
  unfolding stream_chunks
  read_stream resp =
      if leb 400 resp.status_code
      then err (leaf (codes "openrouter: stream status " ++ itoa resp.status_code))
      else ok (stream_chunks resp.body)

module _ (codec : Codec) (marshal : ChatRequest → Result Bytes) (net : Network) where
  unfoldable pub chat : Provider → List Message → ChatOptions → Result ChatResponse
  unfolding request_of read_answer headers
  chat p messages opts = do
    body ←
        or_wrap (codes "openrouter: marshal request: ")
          (marshal (request_of messages opts false opts.tools))
    resp ←
        send_request (codes "openrouter: build request: ") (codes "openrouter: request failed: ")
          net (record { url = endpoint p; headers = headers p; body = body })
    read_answer codec resp

  unfoldable pub chat_stream : Provider → List Message → ChatOptions → Result (List StreamChunk)
  unfolding request_of read_stream stream_headers
  chat_stream p messages opts = do
    body ←
        or_wrap (codes "openrouter: marshal stream request: ")
          (marshal (request_of messages opts true []))
    resp ←
        send_request (codes "openrouter: build stream request: ")
          (codes "openrouter: stream request failed: ") net
          (record { url = endpoint p; headers = stream_headers p; body = body })
    read_stream codec resp

  abbrev pub openrouter_model : Provider → ChatModel
  openrouter_model p = record {
    provider_name = codes "openrouter";
    chat = chat p;
    chat_stream = chat_stream p;
  }
