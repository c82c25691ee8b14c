-- ===== src/Ai/Anthropic/Failures.antt =====
-- internal/ai/provider/anthropic/provider.go: what Chat and ChatStream make of a refusal.
use agenthub_skill_runtime.Base.{◌≡◌, ◌≢◌, refl, false, ◌++◌, Bytes, codes, is_empty, ◌==◌, arith}
use agenthub_skill_runtime.Base.Decimal.{itoa}
use agenthub_skill_runtime.Executor.{Error, leaf, ok, err}
use agenthub_skill_runtime.Ai.Transport.{Codec, Response, close_body}
use agenthub_skill_runtime.Ai.Anthropic.Replies.{error_detail, parse_error}
use agenthub_skill_runtime.Ai.Anthropic.Chat.{read_answer, read_stream}

error_detail-closed :
    (codec : Codec) (resp : Response) (closed : Error)
    → codec.decode (close_body resp).body ≡ err closed
    → error_detail codec (close_body resp).body ≡ err closed
unfolding error_detail
error_detail-closed codec resp closed c = rw c

-- If an answer with a status other than 200 has a readable message, then Chat reports that message.
-- ChatStream closes the body before it reads it, so where a closed body cannot be decoded, it
-- reports the bare status of the same answer.
pub read_stream_loses_detail :
    (codec : Codec) (resp : Response) (detail : Bytes) (closed : Error)
    → resp.status_code ≢ 200
    → error_detail codec resp.body ≡ ok detail
    → is_empty detail ≡ false
    → codec.decode (close_body resp).body ≡ err closed
    → (read_answer codec resp
        ≡ err (
            leaf
              (codes "anthropic: API error " ++ (itoa resp.status_code ++ (codes ": " ++ detail)))))
      × (read_stream codec resp
          ≡ err (leaf (codes "anthropic: unexpected status " ++ itoa resp.status_code)))
unfolding read_answer read_stream parse_error
read_stream_loses_detail codec resp detail closed h e full c =
    let other : (resp.status_code == 200) ≡ false = ground arith in
    (
      rw (other, e, parse_error, full) refl,
      rw (other, error_detail-closed codec resp closed c, parse_error),
    )
