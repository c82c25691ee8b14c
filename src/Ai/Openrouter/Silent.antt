-- ===== src/Ai/Openrouter/Silent.antt =====
-- internal/ai/provider/openrouter/provider.go: how a stream that breaks off ends for the reader.
use agenthub_skill_runtime.Base.{
  ◌≡◌, refl, sym, ap, ◌∙◌, true, false, List, [], ◌∷◌, ◌++◌, append-nil, Option, none, Bytes,
  split_byte, contains_byte, length, leb, All, arith,
}
use agenthub_skill_runtime.Executor.{Error}
use agenthub_skill_runtime.Ai.Transport.{Codec}
use agenthub_skill_runtime.Ai.Events.{Scan, scan_segments, scan_lines, max_scan_token_size, pump}
use agenthub_skill_runtime.Ai.Events.Lines.{
  IsLine, spell_lines, scan_lines-spell, scan_lines_whole, split_byte-line, split_byte-cons,
}
use agenthub_skill_runtime.Ai.Openrouter.Chat.{react_line, stream_chunks}

scan_segments-failure :
    (segments : List Bytes) (f g : Option Error)
    → (scan_segments segments f).lines ≡ (scan_segments segments g).lines
unfolding scan_segments
scan_segments-failure [] f g = refl
scan_segments-failure (s ∷ []) f g = ground arith
scan_segments-failure (s ∷ t ∷ more) f g = ground (arith, scan_segments-failure (t ∷ more) f g)

-- A line that does not fit the buffer ends the scan.
scan_lines_long :
    (line rest : Bytes) (failure : Option Error)
    → contains_byte line b'\n' ≡ false
    → leb max_scan_token_size (length line) ≡ true
    → (scan_lines (record { bytes = line ++ (b'\n' ∷ rest); failure = failure })).lines ≡ []
unfolding scan_lines scan_segments
scan_lines_long line rest failure whole long =
    let (first, more, e) = split_byte-cons rest b'\n' in
    rw (split_byte-line line rest b'\n' whole, e, long)

scan_lines_cut :
    (lines : List Bytes) (line rest : Bytes) (failure : Option Error)
    → All IsLine lines
    → contains_byte line b'\n' ≡ false
    → leb max_scan_token_size (length line) ≡ true
    → (scan_lines
        (record { bytes = spell_lines lines ++ (line ++ b'\n' ∷ rest); failure = failure })).lines
      ≡ lines
scan_lines_cut lines line rest failure h whole long =
    rw
      (
        scan_lines-spell lines (line ++ b'\n' ∷ rest) failure h,
        scan_lines_long line rest failure whole long,
      )
      (append-nil lines)

-- ChatStream does not ask the scanner for its error: the reader gets the same chunks, with no error
-- behind them, whether a body has ended or has broken off; and behind lines that fit, a line that
-- does not fit the scanner's buffer ends the stream just as the end of the body would, and what
-- follows it is lost.
pub stream_chunks-silent :
    (codec : Codec) (bytes : Bytes) (f g : Option Error) (lines : List Bytes) (long rest : Bytes)
    → All IsLine lines
    → contains_byte long b'\n' ≡ false
    → leb max_scan_token_size (length long) ≡ true
    → (stream_chunks codec (record { bytes = bytes; failure = f })
        ≡ stream_chunks codec (record { bytes = bytes; failure = g }))
      × (stream_chunks codec
            (record { bytes = spell_lines lines ++ (long ++ b'\n' ∷ rest); failure = f })
          ≡ stream_chunks codec (record { bytes = spell_lines lines; failure = none }))
unfolding stream_chunks scan_lines
stream_chunks-silent codec bytes f g lines long rest h whole is_long =
    let sent = λ (ls : List Bytes). pump (react_line codec) ls [] in
    (
      ap sent (scan_segments-failure (split_byte bytes b'\n') f g),
      ap sent (
          scan_lines_cut lines long rest f h whole is_long
          ∙ ap (λ (scan : Scan). scan.lines) (sym (scan_lines_whole lines none h))),
    )
