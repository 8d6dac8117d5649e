-- ===== src/Json/Reader.antt =====
-- A reader of JSON strings after RFC 8259, to state what the writers promise. It is independent of
-- the program: it takes the bytes behind an opening quote, and gives the text and what follows the
-- closing quote. A `\u` escape stands for the UTF-8 bytes of its code point; surrogates are refused.
use cubicle.Json.Chunk.{quote, backslash}
use cubicle.Base.{
  ℕ, suc, ◌&&◌, ◌||◌, ◌++◌, Option, ◌*◌, ◌%◌, ltb, ◌/◌, Bytes, ◌==◌, ◌+◌, some, ◌-◌, [], leb, ◌∷◌,
  if◌then◌else◌, zero, none,
}

pub data Mode : Type 0 where
  plain after_backslash : Mode
  hex : ℕ → ℕ → Mode

pub data Feed : Type 0 where
  closed refused : Feed
  goes : Mode → Bytes → Feed

-- The UTF-8 bytes of a code point below 0x10000.
unfoldable pub utf8 : ℕ → Bytes
utf8 u =
    if ltb u 0x80
    then u ∷ []
    else if ltb u 0x800
    then (0xc0 + u / 0x40) ∷ (0x80 + u % 0x40) ∷ []
    else (0xe0 + u / 0x1000) ∷ (0x80 + u / 0x40 % 0x40) ∷ (0x80 + u % 0x40) ∷ []

unfoldable pub hex_value : ℕ → Option ℕ
hex_value c =
    if leb b'0' c && leb c b'9'
    then some (c - b'0')
    else if leb b'a' c && leb c b'f'
    then some (c - b'a' + 10)
    else if leb b'A' c && leb c b'F'
    then some (c - b'A' + 10)
    else none

feed_plain : ℕ → Feed
feed_plain c =
    if c == quote
    then closed
    else if c == backslash
    then goes after_backslash []
    else if ltb c 0x20
    then refused
    else goes plain (c ∷ [])

feed_escape : ℕ → Feed
feed_escape c =
    if c == quote || (c == backslash || c == b'/')
    then goes plain (c ∷ [])
    else if c == b'b'
    then goes plain (8 ∷ [])
    else if c == b'f'
    then goes plain (12 ∷ [])
    else if c == b'n'
    then goes plain (10 ∷ [])
    else if c == b'r'
    then goes plain (13 ∷ [])
    else if c == b't'
    then goes plain (9 ∷ [])
    else if c == b'u'
    then goes (hex 3 0) []
    else refused

-- `left` digits follow this one.
feed_hex : ℕ → ℕ → ℕ → Feed
feed_hex left acc c = elim (hex_value c) [
  | none ↦ refused
  | some d ↦ last_digit left (acc * 16 + d)
]
  where
    last_digit : ℕ → ℕ → Feed
    last_digit zero u = if leb 0xd800 u && leb u 0xdfff then refused else goes plain (utf8 u)
    last_digit (suc k) u = goes (hex k u) []

unfoldable pub feed : Mode → ℕ → Feed
unfolding feed_plain feed_escape feed_hex
feed plain c = feed_plain c
feed after_backslash c = feed_escape c
feed (hex left acc) c = feed_hex left acc c

-- In front of the text that the rest reads.
abbrev pub prepend : Bytes → Option (Bytes × Bytes) → Option (Bytes × Bytes)
prepend out none = none
prepend out (some (text, rest)) = some (out ++ text, rest)

unfoldable pub read_from : Mode → Bytes → Option (Bytes × Bytes)
read_from m [] = none
read_from m (c ∷ s) = elim (feed m c) [
  | closed ↦ some ([], s)
  | refused ↦ none
  | goes m' out ↦ prepend out (read_from m' s)
]

abbrev pub read_string : Bytes → Option (Bytes × Bytes)
read_string = read_from plain
