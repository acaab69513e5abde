-- ===== src/Go/Scanner/Laws.antt =====
-- What the scanner yields: the lines of a text, and how many bytes its tokens leave out.
use slopvmrunner.Prelude.{
  ℕ, ◌<◌, ◌≡◌, ◌∙◌, refl, false, List, [], ◌∷◌, ◌++◌, append_assoc, append-nil, length, All, lt→ltb,
  ◌==◌,
}
use slopvmrunner.Go.Scanner.{Bytes, newline, drop_cr, Scanned, token, emit, scan_from, scan_lines}

-- A line as it is written: no newline in it, and short enough for the buffer.
abbrev pub NoNewline : Bytes → Type 0
NoNewline = All (λ c. (c == newline) ≡ false)

pub record IsLine (limit : ℕ) (line : Bytes) : Type 0 where
  pub one : NoNewline line
  pub plain : drop_cr line ≡ line
  pub short : length line < limit

-- Lines, each with its newline.
abbrev pub unlines : List Bytes → Bytes
unlines [] = []
unlines (line ∷ lines) = line ++ newline ∷ unlines lines

scan_from-append :
    (limit : ℕ) (line cur s : Bytes)
    → NoNewline line
    → scan_from limit cur (line ++ s) ≡ scan_from limit (cur ++ line) s
unfolding scan_from
scan_from-append limit [] cur s h = rw append-nil
scan_from-append limit (c ∷ line) cur s (hc, h) =
    rw hc (scan_from-append limit line (cur ++ c ∷ []) s h ∙ rw append_assoc)

scan_from-newline :
    (limit : ℕ) (cur s : Bytes)
    → scan_from limit cur (newline ∷ s) ≡ emit limit cur (scan_from limit [] s)
unfolding scan_from
scan_from-newline limit cur s = refl

emit_short :
    (limit : ℕ) (line : Bytes) (rest : Scanned)
    → length line < limit
    → emit limit line rest ≡ token line rest
unfolding emit
emit_short limit line rest h = rw (lt→ltb _ _ h)

-- A scan of whole lines yields these lines, and after them the scan of what follows.
pub scan_lines-unlines :
    (limit : ℕ) (lines : List Bytes) (s : Bytes)
    → All (IsLine limit) lines
    → scan_lines limit (unlines lines ++ s)
      ≡ record (scan_lines limit s) { lines = lines ++ (scan_lines limit s).lines }
unfolding scan_lines
scan_lines-unlines limit [] s h = refl
scan_lines-unlines limit (line ∷ lines) s (h, hs) =
    rw
      (
        append_assoc,
        scan_from-append limit line [] (newline ∷ (unlines lines ++ s)) h.one,
        scan_from-newline,
        emit_short limit line (scan_from limit [] (unlines lines ++ s)) h.short,
        h.plain,
      )
      (rw (scan_lines-unlines limit lines s hs) refl)
