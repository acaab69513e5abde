-- ===== src/Go/Scanner.antt =====
-- bufio.Scanner with ScanLines over a reader that holds all its input, with its limit on a line.
pub mod Laws
pub mod Count
use slopvmrunner.Prelude.{
  ℕ, ◌+◌, Bool, true, false, List, [], ◌∷◌, ◌++◌, length, ltb, ◌==◌, if◌then◌else◌,
}

abbrev pub Bytes : Type 0
Bytes = List ℕ

abbrev pub newline : ℕ
newline = b'\n'

abbrev pub carriage_return : ℕ
carriage_return = b'\r'

-- bufio.dropCR: a line without its last byte, if that is a carriage return.
unfoldable pub drop_cr : Bytes → Bytes
drop_cr [] = []
drop_cr (c ∷ []) = if c == carriage_return then [] else c ∷ []
drop_cr (c ∷ d ∷ s) = c ∷ drop_cr (d ∷ s)

-- The tokens that `Scan` yields, and whether it stopped with ErrTooLong.
pub record Scanned : Type 0 where
  pub lines : List Bytes
  pub too_long : Bool

abbrev pub token : Bytes → Scanned → Scanned
token line rest = record rest { lines = drop_cr line ∷ rest.lines }

abbrev pub none_left : Scanned
none_left = record { lines = []; too_long = false }

abbrev overflow : Scanned
overflow = record { lines = []; too_long = true }

-- A line with `limit` bytes or more fills the buffer before its end is found.
unfoldable pub emit : ℕ → Bytes → Scanned → Scanned
unfolding drop_cr
emit limit line rest = if ltb (length line) limit then token line rest else overflow

-- What follows the last newline is a token too, unless it is empty.
unfoldable pub last_token : ℕ → Bytes → Scanned
unfolding emit
last_token limit [] = none_left
last_token limit (c ∷ line) = emit limit (c ∷ line) none_left

-- The scan behind the part `cur` of a line.
unfoldable pub scan_from : ℕ → Bytes → Bytes → Scanned
unfolding last_token
scan_from limit cur [] = last_token limit cur
scan_from limit cur (c ∷ s) =
    let ended = emit limit cur (scan_from limit [] s) in
    let longer = scan_from limit (cur ++ c ∷ []) s in if c == newline then ended else longer

unfoldable pub scan_lines : ℕ → Bytes → Scanned
unfolding scan_from
scan_lines limit s = scan_from limit [] s
