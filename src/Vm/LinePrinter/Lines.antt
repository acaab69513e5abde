-- ===== src/Vm/LinePrinter/Lines.antt =====
-- Whole lines: what `Write` prints when every chunk ends with a newline.
use slopvmrunner.Prelude.{
  ℕ, ◌≡◌, ◌∙◌, ◌≢◌, refl, Bool, true, false, some, List, [], ◌∷◌, ◌++◌, arith, length, drop, All,
  map, length-append, append-nil,
}
use mathlib.Core.List.{flatten}
use slopvmrunner.Go.Scanner.{Bytes, newline, scan_lines}
use slopvmrunner.Go.Scanner.Laws.{IsLine, unlines, scan_lines-unlines}
use slopvmrunner.Vm.LinePrinter.{
  LinePrinter, Call, returned, max_line, consumed, keep_rest, flush_lines, write, write_all, output,
}

abbrev emptied : LinePrinter → LinePrinter
emptied p = record p { partial = [] }

-- The call that prints these lines and leaves nothing behind.
abbrev pub printed_by : LinePrinter → List Bytes → Call
printed_by p lines = record { printer = emptied p; printed = output p lines; ending = returned }

length-unlines : (lines : List Bytes) → length (unlines lines) ≡ consumed lines
unfolding consumed
length-unlines [] = refl
length-unlines (line ∷ lines) =
    omega (arith, length-unlines lines, length-append line (newline ∷ unlines lines))

drop_all : (s : Bytes) → drop (length s) s ≡ []
drop_all [] = refl
drop_all (c ∷ s) = drop_all s

scan_lines-whole :
    (limit : ℕ) (lines : List Bytes)
    → All (IsLine limit) lines
    → scan_lines limit (unlines lines) ≡ record { lines = lines; too_long = false }
unfolding scan_lines
scan_lines-whole limit lines h = simp append-nil at (scan_lines-unlines limit lines [] h)

keep_rest-whole :
    (p : LinePrinter) (line : Bytes) (lines : List Bytes)
    → keep_rest p (unlines (line ∷ lines)) (line ∷ lines) ≡ printed_by p (line ∷ lines)
unfolding keep_rest
keep_rest-whole p line lines =
    rw (← length-unlines (line ∷ lines))
      (ground (arith, length-unlines (line ∷ lines), drop_all (unlines (line ∷ lines))))

abbrev pub fresh : Bool → LinePrinter
fresh enabled = record { partial = []; enabled = enabled }

flush_lines-whole :
    (limit : ℕ) (p : LinePrinter) (line : Bytes) (lines : List Bytes)
    → All (IsLine limit) (line ∷ lines)
    → flush_lines limit p (unlines (line ∷ lines)) ≡ printed_by p (line ∷ lines)
unfolding flush_lines
flush_lines-whole limit p line lines h =
    rw (scan_lines-whole limit (line ∷ lines) h) (keep_rest-whole p line lines)

write-some :
    (enabled : Bool) (chunk : Bytes)
    → chunk ≢ []
    → write (fresh enabled) (some chunk) ≡ flush_lines max_line (fresh enabled) chunk
unfolding write
write-some enabled [] h = absurd (h refl)
write-some enabled (c ∷ chunk) h = refl

unlines-ne-nil : (line : Bytes) (lines : List Bytes) → unlines (line ∷ lines) ≢ []
unlines-ne-nil [] lines h = cc
unlines-ne-nil (c ∷ line) lines h = cc

write-unlines :
    (enabled : Bool) (lines : List Bytes)
    → All (IsLine max_line) lines
    → write (fresh enabled) (some (unlines lines)) ≡ printed_by (fresh enabled) lines
write-unlines true [] h = unfold write in refl
write-unlines false [] h = unfold write in refl
write-unlines enabled (line ∷ lines) h =
    write-some enabled (unlines (line ∷ lines)) (unlines-ne-nil line lines)
    ∙ flush_lines-whole max_line (fresh enabled) line lines h

output-append :
    (p : LinePrinter) (xs ys : List Bytes) → output p xs ++ output p ys ≡ output p (xs ++ ys)
output-append p xs ys = ground arith

write_all-cons :
    (p : LinePrinter) (chunk : Bytes) (chunks : List Bytes) {q : LinePrinter} {out : List Bytes}
    → write p (some chunk) ≡ record { printer = q; printed = out; ending = returned }
    → write_all p (chunk ∷ chunks)
      ≡ record (write_all q chunks) { printed = out ++ (write_all q chunks).printed }
unfolding write_all
write_all-cons p chunk chunks e = rw (write_all, e) (rw e refl)

-- If every chunk is made of whole lines, each with its newline, shorter than 16 MiB, and with no
-- carriage return at its end, then a printer that starts empty returns nil on all of them, has
-- printed exactly these lines in order (or nothing, if it is disabled), and ends empty.
pub write_all-lines :
    (enabled : Bool) (chunks : List (List Bytes))
    → All (All (IsLine max_line)) chunks
    → write_all (fresh enabled) (map unlines chunks) ≡ printed_by (fresh enabled) (flatten chunks)
unfolding write_all flatten
write_all-lines true [] h = refl
write_all-lines false [] h = refl
write_all-lines enabled (lines ∷ chunks) (h, hs) =
    write_all-cons (fresh enabled) _ (map unlines chunks) (write-unlines enabled lines h)
    ∙ rw (write_all-lines enabled chunks hs)
        (rw (← output-append (fresh enabled) lines (flatten chunks)) refl)
