-- ===== src/Ai/Events/Lines.antt =====
-- Scanning a body that is written line by line.
use agenthub_skill_runtime.Base.{
  ℕ, ◌≡◌, refl, ap, ◌∙◌, false, List, [], ◌∷◌, ◌++◌, append_assoc, append-nil, Option, Bytes,
  contains_byte, split_byte, length, All, leb, ◌==◌, arith, Bool-cases, inl, inr,
}
use agenthub_skill_runtime.Executor.{Error}
use agenthub_skill_runtime.Ai.{StreamChunk}
use agenthub_skill_runtime.Ai.Events.{
  Scan, with_line, drop_cr, scan_lines, max_scan_token_size, Reaction, go_on, return, pump,
}

-- A line that a scanner yields as it stands.
pub record IsLine (line : Bytes) : Type 0 where
  pub whole : contains_byte line b'\n' ≡ false
  pub fits : leb max_scan_token_size (length line) ≡ false
  pub no_cr : drop_cr line ≡ line

abbrev pub spell_lines : List Bytes → Bytes
spell_lines [] = []
spell_lines (line ∷ lines) = line ++ (b'\n' ∷ spell_lines lines)

abbrev pub with_lines : List Bytes → Scan → Scan
with_lines lines scan = record scan { lines = lines ++ scan.lines }

pub split_byte-line :
    (line rest : Bytes) (sep : ℕ)
    → contains_byte line sep ≡ false
    → split_byte (line ++ sep ∷ rest) sep ≡ line ∷ split_byte rest sep
unfolding split_byte contains_byte
split_byte-line [] rest sep h = ground arith
split_byte-line (c ∷ line) rest sep h = ground (arith, split_byte-line line rest sep)

pub split_byte-cons :
    (s : Bytes) (sep : ℕ)
    → (first : Bytes) × (more : List Bytes) × (split_byte s sep ≡ first ∷ more)
unfolding split_byte
split_byte-cons [] sep = ([], [], refl)
split_byte-cons (c ∷ s) sep = elim (Bool-cases (c == sep)) [
  | inl e ↦ ([], split_byte s sep, rw e)
  | inr e ↦ let (first, more, eq) = split_byte-cons s sep in (c ∷ first, more, rw (e, eq))
]

scan_line :
    (line rest : Bytes) (failure : Option Error)
    → IsLine line
    → scan_lines (record { bytes = line ++ (b'\n' ∷ rest); failure = failure })
      ≡ with_line line (scan_lines (record { bytes = rest; failure = failure }))
unfolding scan_lines
scan_line line rest failure h =
    let (first, more, e) = split_byte-cons rest b'\n' in
    rw (split_byte-line line rest b'\n' h.whole, e, h.fits, h.no_cr)

-- Lines with newlines behind them are scanned one by one, whatever follows.
pub scan_lines-spell :
    (lines : List Bytes) (rest : Bytes) (failure : Option Error)
    → All IsLine lines
    → scan_lines (record { bytes = spell_lines lines ++ rest; failure = failure })
      ≡ with_lines lines (scan_lines (record { bytes = rest; failure = failure }))
scan_lines-spell [] rest failure h = refl
scan_lines-spell (line ∷ lines) rest failure h = rw (append_assoc) (
    scan_line line (spell_lines lines ++ rest) failure h.0
    ∙ ap (with_line line) (scan_lines-spell lines rest failure h.1))

pub scan_lines_whole :
    (lines : List Bytes) (failure : Option Error)
    → All IsLine lines
    → scan_lines (record { bytes = spell_lines lines; failure = failure })
      ≡ record { lines = lines; error = failure }
unfolding scan_lines split_byte
scan_lines_whole lines failure h =
    let e : scan_lines (record { bytes = spell_lines lines ++ []; failure = failure })
        ≡ record { lines = lines ++ []; error = failure } =
      scan_lines-spell lines [] failure h in
    rw (append-nil (spell_lines lines), append-nil lines) at e

-- The loop goes through these lines and sends these chunks.
pub data Sends (react : Bytes → Reaction) : List Bytes → List StreamChunk → Type 0 where
  nothing : Sends react [] []
  more :
      {line : Bytes} {lines : List Bytes} {first later : List StreamChunk}
      → react line ≡ go_on first
      → Sends react lines later
      → Sends react (line ∷ lines) (first ++ later)

module _ {react : Bytes → Reaction} where
  pub Sends-append :
      {xs ys : List Bytes} {sent later : List StreamChunk}
      → Sends react xs sent
      → Sends react ys later
      → Sends react (xs ++ ys) (sent ++ later)
  Sends-append nothing t = t
  Sends-append (more {line} {lines} {first} {later} e s) t =
      rw (append_assoc) (more e (Sends-append s t))

  pump-Sends :
      {lines : List Bytes} {sent : List StreamChunk} (next : List Bytes) (at_end : List StreamChunk)
      → Sends react lines sent
      → pump react (lines ++ next) at_end ≡ sent ++ pump react next at_end
  unfolding pump
  pump-Sends next at_end nothing = refl
  pump-Sends next at_end (more {line} {lines} {first} {later} e s) =
      rw (e, append_assoc) (ap (◌++◌ first) (pump-Sends next at_end s))

  module _ {lines : List Bytes} {sent : List StreamChunk} (s : Sends react lines sent) where
    -- A body of whole lines: all is sent, and then what is sent at the end.
    pub pump_whole :
        (failure : Option Error) (at_end : Option Error → List StreamChunk)
        → All IsLine lines
        → let scan = scan_lines (record { bytes = spell_lines lines; failure = failure }) in
          pump react scan.lines (at_end scan.error) ≡ sent ++ at_end failure
    unfolding pump
    pump_whole failure at_end h =
        rw (scan_lines_whole lines failure h)
          (rw (append-nil lines) at (pump-Sends [] (at_end failure) s))

    -- Behind a line that ends the loop nothing matters.
    pub pump_stopped :
        (last rest : Bytes) (last_sent : List StreamChunk) (failure : Option Error)
        (at_end : Option Error → List StreamChunk)
        → All IsLine lines
        → IsLine last
        → react last ≡ return last_sent
        → let scan =
            scan_lines
              (record { bytes = spell_lines lines ++ (last ++ b'\n' ∷ rest); failure = failure }) in
          pump react scan.lines (at_end scan.error) ≡ sent ++ last_sent
    unfolding pump
    pump_stopped last rest last_sent failure at_end h hl e =
        let after = scan_lines (record { bytes = rest; failure = failure }) in
        rw (scan_lines-spell lines (last ++ b'\n' ∷ rest) failure h, scan_line last rest failure hl)
          (pump-Sends (last ∷ after.lines) (at_end after.error) s ∙ rw (pump, e))
