-- ===== src/Ai/Channel.antt =====
-- The channel between the goroutine of ChatStream and its reader, make(chan ai.StreamChunk, 32), in
-- the packages under internal/ai/provider. The goroutine and the reader take turns in any order; a
-- hand-over to a waiting reader is a send and a receipt.
pub mod Delivery
mod Tests
use agenthub_skill_runtime.Base.{ℕ, suc, ◌<◌, ◌≡◌, Bool, true, false, List, [], ◌∷◌, ◌++◌, length}
use agenthub_skill_runtime.Ai.{StreamChunk}

abbrev pub capacity : ℕ
capacity = 32

pub record Channel : Type 0 where
  -- what the goroutine has still to send
  pub to_send : List StreamChunk
  pub buffer : List StreamChunk
  pub closed : Bool
  -- what the reader has received, and whether it has seen the end
  pub received : List StreamChunk
  pub ended : Bool

abbrev pub opened : List StreamChunk → Channel
opened chunks = record {
  to_send = chunks;
  buffer = [];
  closed = false;
  received = [];
  ended = false;
}

pub data Step : Channel → Channel → Type 0 where
  -- ch <- chunk, which waits while the buffer is full
  send :
      (s : Channel) (chunk : StreamChunk) (rest : List StreamChunk)
      → s.to_send ≡ chunk ∷ rest
      → length s.buffer < capacity
      → Step s (record s { to_send = rest; buffer = s.buffer ++ chunk ∷ [] })
  -- defer close(ch)
  close : (s : Channel) → s.to_send ≡ [] → s.closed ≡ false → Step s (record s { closed = true })
  -- chunk, ok := <-ch, with a chunk, and once without
  receive :
      (s : Channel) (chunk : StreamChunk) (rest : List StreamChunk)
      → s.buffer ≡ chunk ∷ rest
      → Step s (record s { buffer = rest; received = s.received ++ chunk ∷ [] })
  end :
      (s : Channel)
      → s.buffer ≡ []
      → s.closed ≡ true
      → s.ended ≡ false
      → Step s (record s { ended = true })

pub data Reach (s : Channel) : Channel → Type 0 where
  here : Reach s s
  next : {t u : Channel} → Reach s t → Step t u → Reach s u

-- The number of steps.
abbrev pub count : {s t : Channel} → Reach s t → ℕ
count here = 0
count (next r st) = suc (count r)
