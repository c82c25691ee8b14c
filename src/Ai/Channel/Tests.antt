-- ===== src/Ai/Channel/Tests.antt =====
-- A channel with one chunk.
use agenthub_skill_runtime.Base.{
  ◌-◌, ◌+◌, ◌*◌, ◌≤◌, ◌≡◌, refl, ◌↔◌, ◌⊎◌, true, false, List, [], ◌∷◌, ◌++◌, codes, length, arith,
}
use agenthub_skill_runtime.Ai.{StreamChunk, no_chunk}
use agenthub_skill_runtime.Ai.Channel.{
  Channel, opened, Step, send, close, receive, Reach, here, next, count,
}
use agenthub_skill_runtime.Ai.Channel.Delivery.{Completion, Reach-Delivers, Reach-ends}

abbrev hello : StreamChunk
hello = record no_chunk { delta = codes "Hi" }

abbrev chunks : List StreamChunk
chunks = hello ∷ []

-- The chunk has been sent, received, and the channel is closed.
abbrev last : Channel
last = record { to_send = []; buffer = []; closed = true; received = chunks; ended = false }

abbrev run : Reach (opened chunks) last
run =
    next
      (next (next here (send (opened chunks) hello [] refl (omega arith))) (
        receive
          (record { to_send = []; buffer = chunks; closed = false; received = []; ended = false })
          hello [] refl))
      (close
        (record { to_send = []; buffer = []; closed = false; received = chunks; ended = false })
        refl refl)

Reach-Delivers_example :
    (last.received ++ (last.buffer ++ last.to_send) ≡ chunks)
    × (length last.buffer ≤ 32)
    × (((last.ended ≡ true) × (last.received ≡ chunks)) ⊎ ((t : Channel) × Step last t))
Reach-Delivers_example = Reach-Delivers chunks last run

Reach-ends_example :
    (count run ≤ 2 * length chunks + 2)
    × ((last.ended ≡ true) ↔ (count run ≡ 2 * length chunks + 2))
    × Completion chunks last (2 * length chunks + 2 - count run)
Reach-ends_example = Reach-ends chunks last run
