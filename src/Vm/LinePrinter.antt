-- ===== src/Vm/LinePrinter.antt =====
-- vm/container.go: linePrinterStream, which prints a container's output line by line.

pub mod Lines
pub mod Overrun
use slopvmrunner.Prelude.{
  ℕ, ◌+◌, ◌*◌, Bool, true, false, Option, none, some, List, [], ◌∷◌, ◌++◌, length, drop, leb, ltb,
  if◌then◌else◌,
}
use slopvmrunner.Go.Scanner.{Bytes, Scanned, scan_lines}

-- The mutex and the stream's name are left out: a call holds the lock from its start to its end,
-- and the name only stands in front of each printed line.
pub record LinePrinter : Type 0 where
  pub partial : Bytes
  pub enabled : Bool

-- How a call ends: it returns nil, it returns an error, or the slice expression panics.
pub data Ending : Type 0 where
  returned failed panicked : Ending

pub record Call : Type 0 where
  pub printer : LinePrinter
  pub printed : List Bytes
  pub ending : Ending

-- `sc.Buffer(make([]byte, 0, 64*1024), 16*1024*1024)`
abbrev pub max_line : ℕ
max_line = 16 * 1024 * 1024

-- `consumed += len(line) + 1`
unfoldable pub consumed : List Bytes → ℕ
consumed [] = 0
consumed (line ∷ lines) = length line + 1 + consumed lines

abbrev pub output : LinePrinter → List Bytes → List Bytes
output p lines = if p.enabled then lines else []

-- `remaining := s.partial.Bytes()[consumed:]`, which panics past the end of the slice.
unfoldable pub keep_rest : LinePrinter → Bytes → List Bytes → Call
unfolding consumed
keep_rest p buffer lines =
    let used = consumed lines in
    if ltb 0 used
    then if leb used (length buffer)
      then record {
        printer = record p { partial = drop used buffer };
        printed = output p lines;
        ending = returned;
      }
      else record {
        printer = record p { partial = buffer };
        printed = output p lines;
        ending = panicked;
      }
    else record {
      printer = record p { partial = buffer };
      printed = output p lines;
      ending = returned;
    }

-- The part of `Write` after the chunk has been appended to the buffer.
unfoldable pub flush_lines : ℕ → LinePrinter → Bytes → Call
unfolding keep_rest
flush_lines limit p buffer =
    let scanned = scan_lines limit buffer in
    if scanned.too_long
    then record {
      printer = record p { partial = buffer };
      printed = output p scanned.lines;
      ending = failed;
    }
    else keep_rest p buffer scanned.lines

-- `Write`; `none` is a call whose chunk cannot be decoded.
unfoldable pub write : LinePrinter → Option Bytes → Call
unfolding flush_lines
write p none = record { printer = p; printed = []; ending = failed }
write p (some []) = record { printer = p; printed = []; ending = returned }
write p (some (c ∷ chunk)) = flush_lines max_line p (p.partial ++ c ∷ chunk)

-- `Done`
unfoldable pub finish : LinePrinter → Call
finish p = elim p.partial [
  | [] ↦ record { printer = p; printed = []; ending = returned }
  | c ∷ s ↦ record {
    printer = record p { partial = [] };
    printed = output p ((c ∷ s) ∷ []);
    ending = returned;
  }
]

-- A run of `Write` calls up to the first that does not return nil, with what they print.
unfoldable pub write_all : LinePrinter → List Bytes → Call
unfolding write
write_all p [] = record { printer = p; printed = []; ending = returned }
write_all p (chunk ∷ chunks) =
    let first = write p (some chunk) in
    let rest = write_all first.printer chunks in
    elim first.ending [
      | returned ↦ record rest { printed = first.printed ++ rest.printed }
      | _ ↦ first
    ]
