-- ===== src/Go/Strings.antt =====
-- Go's package strings, as far as the program uses it. A string is the list of its code points:
-- the program's strings are valid UTF-8.
pub mod Laws
pub mod Words
use Prim.Native.Char.{code}
use slopvmrunner.Prelude.{
  ℕ, ◌+◌, String, Bool, true, false, ◌&&◌, ◌||◌, List, [], ◌∷◌, ◌++◌, leb, ltb, ◌==◌, if◌then◌else◌,
}

abbrev pub Text : Type 0
Text = List ℕ

-- A literal.
unfoldable pub text : String → Text
text String.[] = []
text (String.◌∷◌ c s) = code c ∷ text s

unfoldable pub is_empty : Text → Bool
is_empty [] = true
is_empty (c ∷ s) = false

-- `s == t`
unfoldable pub eq : Text → Text → Bool
eq [] [] = true
eq [] (d ∷ t) = false
eq (c ∷ s) [] = false
eq (c ∷ s) (d ∷ t) = c == d && eq s t

-- unicode.IsSpace
unfoldable pub is_space : ℕ → Bool
is_space c =
    c == 0x20
    || (leb 9 c && leb c 13)
    || c == 0x85
    || c == 0xa0
    || c == 0x1680
    || (leb 0x2000 c && leb c 0x200a)
    || c == 0x2028
    || c == 0x2029
    || c == 0x202f
    || c == 0x205f
    || c == 0x3000

unfoldable pub trim_left : Text → Text
unfolding is_space
trim_left [] = []
trim_left (c ∷ s) = let rest = trim_left s in if is_space c then rest else c ∷ s

-- A space is dropped if only spaces follow it.
unfoldable pub trim_right : Text → Text
unfolding is_space is_empty
trim_right [] = []
trim_right (c ∷ s) = let rest = trim_right s in if is_space c && is_empty rest then [] else c ∷ rest

-- strings.TrimSpace
unfoldable pub trim_space : Text → Text
unfolding trim_left trim_right
trim_space s = trim_right (trim_left s)

-- unicode.ToLower as far as its result is an ASCII letter: A to Z, the dotted capital I (U+0130)
-- and the Kelvin sign (U+212A). Any other code point is lowered to one that is not ASCII, or to
-- itself, and stays as it is here: the program only compares the result with ASCII words.
unfoldable pub lower_rune : ℕ → ℕ
lower_rune c =
    if leb b'A' c && leb c b'Z'
    then c + 32
    else if c == 0x130
    then b'i'
    else if c == 0x212a
    then b'k'
    else c

-- strings.ToLower
unfoldable pub to_lower : Text → Text
unfolding lower_rune
to_lower [] = []
to_lower (c ∷ s) = lower_rune c ∷ to_lower s

-- strings.HasPrefix
unfoldable pub has_prefix : Text → Text → Bool
has_prefix s [] = true
has_prefix [] (d ∷ p) = false
has_prefix (c ∷ s) (d ∷ p) = c == d && has_prefix s p

unfoldable pub drop_prefix : Text → Text → Text
drop_prefix s [] = s
drop_prefix [] (d ∷ p) = []
drop_prefix (c ∷ s) (d ∷ p) = drop_prefix s p

-- strings.TrimPrefix
unfoldable pub trim_prefix : Text → Text → Text
unfolding has_prefix drop_prefix
trim_prefix s p = if has_prefix s p then drop_prefix s p else s

-- The word read so far, if there is one, in front of the others.
unfoldable pub flush : Text → List Text → List Text
flush [] words = words
flush (c ∷ w) words = (c ∷ w) ∷ words

-- strings.Fields: the words between runs of spaces, read behind the part `w` of a word.
unfoldable pub fields_from : Text → Text → List Text
unfolding is_space flush
fields_from w [] = flush w []
fields_from w (c ∷ s) =
    let ended = flush w (fields_from [] s) in
    let longer = fields_from (w ++ c ∷ []) s in if is_space c then ended else longer

unfoldable pub words : Text → List Text
unfolding fields_from
words s = fields_from [] s
