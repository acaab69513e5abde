-- ===== src/Vm/LinePrinter/Overrun.antt =====
-- When `Write` runs past the end of its buffer.
use slopvmrunner.Prelude.{
  ℕ, ◌+◌, ◌≡◌, ◌↔◌, refl, true, false, some, List, [], ◌∷◌, ◌++◌, arith, length, length-drop,
}
use slopvmrunner.Go.Scanner.{Bytes, scan_lines}
use slopvmrunner.Go.Scanner.Count.{total, line_end_crs, in_line, total-scan_lines, bit}
use slopvmrunner.Vm.LinePrinter.{
  LinePrinter, returned, panicked, max_line, consumed, keep_rest, flush_lines, write,
}

consumed-eq-total : (lines : List Bytes) → consumed lines ≡ total lines
unfolding consumed
consumed-eq-total [] = refl
consumed-eq-total (line ∷ lines) = omega (arith, consumed-eq-total lines)

flush_lines-panicked :
    (limit : ℕ) (p : LinePrinter) (buffer : Bytes)
    → (scan_lines limit buffer).too_long ≡ false
    → ((flush_lines limit p buffer).ending ≡ panicked)
      ↔ ((in_line false buffer ≡ true) × (line_end_crs false buffer ≡ 0))
unfolding flush_lines keep_rest
flush_lines-panicked limit p buffer h =
    ground
      (arith, total-scan_lines limit buffer h, consumed-eq-total (scan_lines limit buffer).lines)

flush_lines-returned :
    (limit : ℕ) (p : LinePrinter) (buffer : Bytes)
    → (scan_lines limit buffer).too_long ≡ false
    → (flush_lines limit p buffer).ending ≡ returned
    → length (flush_lines limit p buffer).printer.partial + bit (in_line false buffer)
      ≡ line_end_crs false buffer
unfolding flush_lines keep_rest
flush_lines-returned limit p buffer h e = ground (
  arith,
  total-scan_lines limit buffer h,
  consumed-eq-total (scan_lines limit buffer).lines,
  length-drop (consumed (scan_lines limit buffer).lines) buffer,
)

-- A non-empty chunk whose lines all fit the scanner's limit makes `Write` panic exactly when the
-- buffered text does not end with a newline and no line of it ends with a carriage return.
pub write-panicked :
    (p : LinePrinter) (c : ℕ) (chunk : Bytes)
    → (scan_lines max_line (p.partial ++ c ∷ chunk)).too_long ≡ false
    → ((write p (some (c ∷ chunk))).ending ≡ panicked) ↔ (
        (in_line false (p.partial ++ c ∷ chunk) ≡ true)
        × (line_end_crs false (p.partial ++ c ∷ chunk) ≡ 0))
unfolding write
write-panicked p c chunk h = flush_lines-panicked max_line p (p.partial ++ c ∷ chunk) h

-- Where `Write` returns nil on a non-empty chunk within the scanner's limit, it leaves as many
-- bytes in the buffer as line ends with a carriage return, less one if the last line is unfinished.
pub write-returned :
    (p : LinePrinter) (c : ℕ) (chunk : Bytes)
    → (scan_lines max_line (p.partial ++ c ∷ chunk)).too_long ≡ false
    → (write p (some (c ∷ chunk))).ending ≡ returned
    → length (write p (some (c ∷ chunk))).printer.partial
        + bit (in_line false (p.partial ++ c ∷ chunk))
      ≡ line_end_crs false (p.partial ++ c ∷ chunk)
unfolding write
write-returned p c chunk h e = flush_lines-returned max_line p (p.partial ++ c ∷ chunk) h e
