-- ===== src/Go/Scanner/Count.antt =====
-- How many bytes of its input the scanner's tokens account for.
use slopvmrunner.Prelude.{
  ℕ, ◌+◌, ◌≡◌, refl, Bool, true, false, List, [], ◌∷◌, ◌++◌, arith, length, length-append, ◌==◌,
  if◌then◌else◌,
}
use slopvmrunner.Go.Scanner.{
  Bytes, newline, carriage_return, drop_cr, Scanned, emit, last_token, none_left, scan_from,
  scan_lines,
}

abbrev pub bit : Bool → ℕ
bit true = 1
bit false = 0

-- The bytes of the tokens, with one more for each token.
abbrev pub total : List Bytes → ℕ
total [] = 0
total (line ∷ lines) = length line + 1 + total lines

pub ends_with_cr : Bytes → Bool
ends_with_cr [] = false
ends_with_cr (c ∷ []) = c == carriage_return
ends_with_cr (c ∷ d ∷ s) = ends_with_cr (d ∷ s)

-- The carriage returns before a newline or at the end; the flag tells of the byte before.
unfoldable pub line_end_crs : Bool → Bytes → ℕ
line_end_crs after_cr [] = bit after_cr
line_end_crs after_cr (c ∷ s) =
    let ended = bit after_cr + line_end_crs false s in
    let longer = line_end_crs (c == carriage_return) s in if c == newline then ended else longer

-- Whether a text ends inside a line; the flag tells that one has begun before.
unfoldable pub in_line : Bool → Bytes → Bool
in_line begun [] = begun
in_line begun (c ∷ s) = in_line (if c == newline then false else true) s

length-drop_cr : (line : Bytes) → length (drop_cr line) + bit (ends_with_cr line) ≡ length line
unfolding drop_cr ends_with_cr
length-drop_cr [] = omega arith
length-drop_cr (c ∷ []) = ground arith
length-drop_cr (c ∷ d ∷ s) = omega (arith, length-drop_cr (d ∷ s))

ends_with_cr-append :
    (line : Bytes) (c : ℕ) → ends_with_cr (line ++ c ∷ []) ≡ (c == carriage_return)
unfolding ends_with_cr
ends_with_cr-append [] c = refl
ends_with_cr-append (b ∷ []) c = refl
ends_with_cr-append (b ∷ d ∷ s) c = ends_with_cr-append (d ∷ s) c

abbrev begun : Bytes → Bool
begun [] = false
begun (c ∷ s) = true

begun-append : (line : Bytes) (c : ℕ) → begun (line ++ c ∷ []) ≡ true
begun-append [] c = refl
begun-append (b ∷ s) c = refl

-- What the scan behind `cur` accounts for.
abbrev Accounts : Bytes → Bytes → Scanned → Type 0
Accounts cur s r =
    r.too_long ≡ false
    → total r.lines + line_end_crs (ends_with_cr cur) s
      ≡ length cur + length s + bit (in_line (begun cur) s)

total-emit :
    (limit : ℕ) (line : Bytes) (rest : Scanned)
    → (emit limit line rest).too_long ≡ false
    → (rest.too_long ≡ false)
      × (total (emit limit line rest).lines + bit (ends_with_cr line)
          ≡ length line + 1 + total rest.lines)
unfolding emit
total-emit limit line rest h = ground (arith, length-drop_cr line)

total-last_token : (limit : ℕ) (cur : Bytes) → Accounts cur [] (last_token limit cur)
unfolding last_token line_end_crs in_line ends_with_cr
total-last_token limit [] h = omega arith
total-last_token limit (b ∷ cur) h = ground (arith, total-emit limit (b ∷ cur) none_left)

total-scan_from : (limit : ℕ) (cur s : Bytes) → Accounts cur s (scan_from limit cur s)
unfolding scan_from line_end_crs in_line ends_with_cr
total-scan_from limit cur [] h = total-last_token limit cur h
total-scan_from limit cur (c ∷ s) h = ground (
  arith,
  total-emit limit cur (scan_from limit [] s),
  total-scan_from limit [] s,
  total-scan_from limit (cur ++ c ∷ []) s,
  ends_with_cr-append cur c,
  length-append cur (c ∷ []),
  begun-append cur c,
)

-- The tokens and one byte for each make up the input, but for the carriage returns that are cut
-- off, and for the newline that an unfinished last line lacks.
pub total-scan_lines :
    (limit : ℕ) (s : Bytes)
    → (scan_lines limit s).too_long ≡ false
    → total (scan_lines limit s).lines + line_end_crs false s ≡ length s + bit (in_line false s)
unfolding scan_lines ends_with_cr
total-scan_lines limit s h = omega (arith, total-scan_from limit [] s h)
