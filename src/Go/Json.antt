-- ===== src/Go/Json.antt =====
-- Go's encoding/json, as far as the program uses it: values, and MarshalIndent with no prefix and two
-- spaces. A map's keys come out sorted.
use slopvmrunner.Prelude.{
  ℕ, zero, suc, ◌+◌, ◌-◌, ◌/◌, ◌%◌, Bool, true, false, ◌||◌, Option, none, some, List, [], ◌∷◌,
  ◌++◌, ltb, ◌==◌, if◌then◌else◌,
}
use slopvmrunner.Go.Strings.{Text, text, eq}
use slopvmrunner.Go.Numbers.{format, format_bool}

mutual
  pub data Json : Type 0 where
    bool : Bool → Json
    number : ℕ → Json
    string : Text → Json
    array : Items → Json
    object : Members → Json

  pub data Items : Type 0 where
    no_items : Items
    item : Json → Items → Items

  pub data Members : Type 0 where
    no_members : Members
    member : Text → Json → Members → Members

-- The items of a list of texts.
unfoldable pub strings : List Text → Items
strings [] = no_items
strings (s ∷ ss) = item (string s) (strings ss)

unfoldable pub field : Text → Members → Option Json
unfolding eq
field key no_members = none
field key (member k v ms) = let rest = field key ms in if eq k key then some v else rest

-- The value under a key, where there is an object with that key.
unfoldable pub get : Text → Option Json → Option Json
unfolding field
get key (some (object ms)) = field key ms
get key v = none

-- Texts in the order of their code points.
unfoldable pub comes_before : Text → Text → Bool
comes_before s [] = false
comes_before [] (d ∷ t) = true
comes_before (c ∷ s) (d ∷ t) = let rest = comes_before s t in if c == d then rest else ltb c d

unfoldable pub insert_member : Text × Text → List (Text × Text) → List (Text × Text)
unfolding comes_before
insert_member m [] = m ∷ []
insert_member m (n ∷ ns) =
    let rest = n ∷ insert_member m ns in if comes_before n.0 m.0 then rest else m ∷ n ∷ ns

unfoldable pub hex_digit : ℕ → ℕ
hex_digit n = if ltb n 10 then b'0' + n else b'a' + (n - 10)

unfoldable pub unicode_escape : ℕ → Text
unfolding hex_digit text
unicode_escape c =
    text "\\u"
    ++ (hex_digit (c / 4096)
        ∷ hex_digit (c / 256 % 16)
        ∷ hex_digit (c / 16 % 16)
        ∷ hex_digit (c % 16)
        ∷ [])

-- One character of a string: quotes, control characters, those of HTML and two line separators are
-- escaped.
unfoldable pub escape : ℕ → Text
unfolding unicode_escape text
escape c =
    if c == b'"'
    then text "\\\""
    else if c == b'\\'
    then text "\\\\"
    else if c == 8
    then text "\\b"
    else if c == 12
    then text "\\f"
    else if c == b'\n'
    then text "\\n"
    else if c == b'\r'
    then text "\\r"
    else if c == b'\t'
    then text "\\t"
    else if ltb c 32 || c == b'<' || c == b'>' || c == b'&' || c == 0x2028 || c == 0x2029
    then unicode_escape c
    else c ∷ []

unfoldable pub escaped : Text → Text
unfolding escape
escaped [] = []
escaped (c ∷ s) = escape c ++ escaped s

unfoldable pub quote : Text → Text
unfolding escaped
quote s = b'"' ∷ (escaped s ++ b'"' ∷ [])

-- A new line with its indent.
unfoldable pub new_line : ℕ → Text
new_line zero = b'\n' ∷ []
new_line (suc depth) = new_line depth ++ b' ' ∷ b' ' ∷ []

-- Parts with a comma between each two, each on a line of its own.
unfoldable pub lines_of : ℕ → List Text → Text
unfolding new_line
lines_of depth [] = []
lines_of depth (p ∷ []) = new_line depth ++ p
lines_of depth (p ∷ q ∷ ps) = new_line depth ++ (p ++ b',' ∷ lines_of depth (q ∷ ps))

unfoldable pub between : ℕ → ℕ → ℕ → List Text → Text
unfolding lines_of new_line
between left right depth [] = left ∷ right ∷ []
between left right depth (p ∷ ps) =
    left ∷ (lines_of (suc depth) (p ∷ ps) ++ (new_line depth ++ right ∷ []))

unfoldable pub keyed : List (Text × Text) → List Text
unfolding quote text
keyed [] = []
keyed ((key, value) ∷ ms) = (quote key ++ (text ": " ++ value)) ∷ keyed ms

unfoldable mutual
  unfolding format format_bool quote between keyed insert_member

  pub indented : ℕ → Json → Text
  indented depth (bool b) = format_bool b
  indented depth (number n) = format n
  indented depth (string s) = quote s
  indented depth (array xs) = between b'[' b']' depth (indented_items (suc depth) xs)
  indented depth (object ms) = between b'{' b'}' depth (keyed (indented_members (suc depth) ms))

  pub indented_items : ℕ → Items → List Text
  indented_items depth no_items = []
  indented_items depth (item v xs) = indented depth v ∷ indented_items depth xs

  pub indented_members : ℕ → Members → List (Text × Text)
  indented_members depth no_members = []
  indented_members depth (member k v ms) =
      insert_member (k, indented depth v) (indented_members depth ms)

-- json.MarshalIndent(v, "", "  ")
unfoldable pub marshal_indent : Json → Text
unfolding indented
marshal_indent v = indented 0 v
