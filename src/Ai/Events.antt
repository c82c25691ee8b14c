-- ===== src/Ai/Events.antt =====
-- The event streams that the providers read: bufio.Scanner with ScanLines over a body, and the loop
-- over its lines, which sends chunks until a line ends it.
pub mod Lines
use agenthub_skill_runtime.Base.{
  ℕ, Bool, List, [], ◌∷◌, ◌++◌, Option, none, some, Bytes, codes, is_empty, split_byte, trim_end,
  leb, ◌==◌, ◌&&◌, length, if◌then◌else◌,
}
use agenthub_skill_runtime.Executor.{Error, leaf}
use agenthub_skill_runtime.Ai.{StreamChunk}
use agenthub_skill_runtime.Ai.Transport.{Body}

-- What a scanner yields: its tokens, and scanner.Err() behind them.
pub record Scan : Type 0 where
  pub lines : List Bytes
  pub error : Option Error

-- bufio.MaxScanTokenSize: the size of the buffer, which a line and its newline must fit.
abbrev pub max_scan_token_size : ℕ
max_scan_token_size = 65536

abbrev pub too_long : Error
too_long = leaf (codes "bufio.Scanner: token too long")

-- dropCR
unfoldable pub drop_cr : Bytes → Bytes
drop_cr [] = []
drop_cr (c ∷ s) = let rest = drop_cr s in if is_empty s && c == 13 then [] else c ∷ rest

abbrev pub with_line : Bytes → Scan → Scan
with_line line scan = record scan { lines = line ∷ scan.lines }

-- The last segment has no newline behind it, and is no line if it is empty.
unfoldable pub scan_segments : List Bytes → Option Error → Scan
unfolding drop_cr
scan_segments [] failure = record { lines = []; error = failure }
scan_segments (s ∷ []) failure =
    if leb max_scan_token_size (length s)
    then record { lines = []; error = some too_long }
    else if is_empty s
    then record { lines = []; error = failure }
    else record { lines = drop_cr s ∷ []; error = failure }
scan_segments (s ∷ t ∷ more) failure =
    if leb max_scan_token_size (length s)
    then record { lines = []; error = some too_long }
    else with_line (drop_cr s) (scan_segments (t ∷ more) failure)

unfoldable pub scan_lines : Body → Scan
unfolding scan_segments
scan_lines body = scan_segments (split_byte body.bytes b'\n') body.failure

-- What the body of the loop makes of a line: it sends chunks and goes on, or returns.
pub data Reaction : Type 0 where
  go_on : List StreamChunk → Reaction
  return : List StreamChunk → Reaction

abbrev pub continue : Reaction
continue = go_on []

-- for scanner.Scan() { … }, and what is sent behind the last line
unfoldable pub pump : (Bytes → Reaction) → List Bytes → List StreamChunk → List StreamChunk
pump react [] at_end = at_end
pump react (line ∷ lines) at_end =
    let rest = pump react lines at_end in
    elim (react line) [ go_on sent ↦ sent ++ rest | return sent ↦ sent ]
