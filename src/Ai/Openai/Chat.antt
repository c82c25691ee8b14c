-- ===== src/Ai/Openai/Chat.antt =====
-- internal/ai/provider/openai/provider.go: the provider, Chat and ChatStream.
use agenthub_skill_runtime.Base.{
  List, [], ◌∷◌, ◌++◌, Option, none, some, true, false, Bytes, codes, is_empty, trim_right_slash,
  ◌==◌, if◌then◌else◌,
}
use agenthub_skill_runtime.Base.Assoc.{Assoc}
use agenthub_skill_runtime.Executor.{Error, prefixed, Result, ok, err, ◌>>=◌, or_wrap}
use agenthub_skill_runtime.Http.Execute.{header_set}
use agenthub_skill_runtime.Ai.{Message, ChatOptions, ChatResponse, StreamChunk, ChatModel}
use agenthub_skill_runtime.Ai.Transport.{Codec, Body, Response, Network, close_body, send_request}
use agenthub_skill_runtime.Ai.Decode.{set_struct}
use agenthub_skill_runtime.Ai.Events.{scan_lines, pump}
use agenthub_skill_runtime.Ai.Openai.Wire.{ChatRequest, no_reply, read_reply}
use agenthub_skill_runtime.Ai.Openai.Requests.{build_request}
use agenthub_skill_runtime.Ai.Openai.Replies.{convert_response, parse_error, broken, react_line}

pub record Provider : Type 0 where
  pub api_key : Bytes
  pub base_url : Bytes

unfoldable pub new : Bytes → Bytes → Provider
new api_key base_url = record {
  api_key = api_key;
  base_url =
      trim_right_slash (if is_empty base_url then codes "https://api.openai.com/v1" else base_url);
}

unfoldable pub headers : Provider → Assoc Bytes
headers p = header_set (codes "anthropic-version") (codes "2023-06-01") (
    header_set (codes "x-api-key") p.api_key
      (header_set (codes "Content-Type") (codes "application/json") []))

unfoldable pub stream_headers : Provider → Assoc Bytes
unfolding headers
stream_headers p = header_set (codes "Accept") (codes "text/event-stream") (headers p)

abbrev pub endpoint : Provider → Bytes
endpoint p = p.base_url ++ codes "/chat/completions"

abbrev pub at_end : Option Error → List StreamChunk
at_end none = []
at_end (some e) = broken (prefixed (codes "openai: read stream: ") e) ∷ []

module _ (codec : Codec) where
  -- The answer to a request with status 200, decoded.
  unfoldable pub read_answer : Response → Result ChatResponse
  read_answer resp =
      if resp.status_code == 200
      then (or_wrap (codes "openai: decode response: ")
            (codec.decode resp.body >>= λ v. set_struct read_reply v no_reply)
          >>= λ r. ok (convert_response r))
      else err (parse_error codec resp)

  -- What the goroutine sends before it closes the channel.
  unfoldable pub stream_chunks : Body → List StreamChunk
  stream_chunks body =
      let scan = scan_lines body in pump (react_line codec) scan.lines (at_end scan.error)

  unfoldable pub read_stream : Response → Result (List StreamChunk)
  unfolding stream_chunks
  read_stream resp =
      if resp.status_code == 200
      then ok (stream_chunks resp.body)
      else err (parse_error codec (close_body resp))

module _ (codec : Codec) (marshal : ChatRequest → Result Bytes) (net : Network) where
  unfoldable pub chat : Provider → List Message → ChatOptions → Result ChatResponse
  unfolding read_answer headers
  chat p messages opts = do
    let req = build_request messages opts false
    body ← or_wrap (codes "openai: marshal request: ") (marshal req)
    resp ←
        send_request (codes "openai: create request: ") (codes "openai: do request: ") net
          (record { url = endpoint p; headers = headers p; body = body })
    read_answer codec resp

  unfoldable pub chat_stream : Provider → List Message → ChatOptions → Result (List StreamChunk)
  unfolding read_stream stream_headers
  chat_stream p messages opts = do
    let req = build_request messages opts true
    body ← or_wrap (codes "openai: marshal stream request: ") (marshal req)
    resp ←
        send_request (codes "openai: create stream request: ") (codes "openai: do stream request: ")
          net (record { url = endpoint p; headers = stream_headers p; body = body })
    read_stream codec resp

  abbrev pub openai_model : Provider → ChatModel
  openai_model p = record {
    provider_name = codes "openai";
    chat = chat p;
    chat_stream = chat_stream p;
  }
