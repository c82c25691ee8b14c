-- ===== src/Ai/Ollama.antt =====
-- internal/ai/provider/ollama/provider.go: OpenAI's provider with another name, address and no key.
use agenthub_skill_runtime.Base.{List, [], Bytes, codes, is_empty, if◌then◌else◌}
use agenthub_skill_runtime.Executor.{Result, ok, ◌>>=◌}
use agenthub_skill_runtime.Ai.{Message, ChatOptions, ChatResponse, StreamChunk, ChatModel}
use agenthub_skill_runtime.Ai.Transport.{Codec, Network}
use agenthub_skill_runtime.Ai.Openai.Wire.{ChatRequest}
use agenthub_skill_runtime.Ai.Openai.Chat
use agenthub_skill_runtime.Ai.Openai.Chat.{Provider}

unfoldable pub new_ollama : Bytes → Provider
new_ollama base_url =
    Chat.new [] (if is_empty base_url then codes "http://localhost:11434/v1" else base_url)

module _ (codec : Codec) (marshal : ChatRequest → Result Bytes) (net : Network) where
  unfoldable pub ollama_chat : Provider → List Message → ChatOptions → Result ChatResponse
  ollama_chat inner messages opts = Chat.chat codec marshal net inner messages opts >>= λ r. ok r

  unfoldable pub ollama_chat_stream :
      Provider → List Message → ChatOptions → Result (List StreamChunk)
  ollama_chat_stream inner messages opts = Chat.chat_stream codec marshal net inner messages opts

  abbrev pub ollama_model : Provider → ChatModel
  ollama_model inner = record {
    provider_name = codes "ollama";
    chat = ollama_chat inner;
    chat_stream = ollama_chat_stream inner;
  }
