-- ===== src/Json/Chunk.antt =====
-- What one byte of a text becomes: the `switch` that `cubicle_json_escape` and the builder share,
-- and the tests on UTF-8 sequences of `cubicle_json_builder_append_string_n`.
use cubicle.Base.{
  Bytes, ℕ, Option, if◌then◌else◌, some, ◌∷◌, Bool, [], ◌==◌, ◌&&◌, get_elem?, ◌/◌, ltb, leb, none,
  ◌+◌, ◌%◌, false, ◌-◌,
}

abbrev pub quote : ℕ
quote = b'"'

abbrev pub backslash : ℕ
backslash = b'\\'

-- The cases of the `switch`; `none` is its `default`.
unfoldable pub short_escape : ℕ → Option ℕ
short_escape c =
    if c == quote
    then some quote
    else if c == backslash
    then some backslash
    else if c == 8
    then some b'b'
    else if c == 12
    then some b'f'
    else if c == 10
    then some b'n'
    else if c == 13
    then some b'r'
    else if c == 9
    then some b't'
    else none

unfoldable pub hex_digit : ℕ → ℕ
hex_digit d = if ltb d 10 then b'0' + d else b'a' + (d - 10)

-- `snprintf(escaped, 8, "\\u%04x", c)` for a byte `c`.
unfoldable pub unicode_escape : ℕ → Bytes
unfolding hex_digit
unicode_escape c = backslash ∷ b'u' ∷ b'0' ∷ b'0' ∷ hex_digit (c / 16) ∷ hex_digit (c % 16) ∷ []

escape_default : ℕ → Bytes
escape_default c = if ltb c 0x20 then unicode_escape c else c ∷ []

-- The chunk of one byte of a C string.
unfoldable pub escape_chunk : ℕ → Bytes
unfolding escape_default
escape_chunk c = elim (short_escape c) [ some e ↦ backslash ∷ e ∷ [] | none ↦ escape_default c ]

-- `i + k < value_length && cursor[i + k] >= lo && cursor[i + k] <= hi`, on the bytes from `i` on.
abbrev pub byte_in : Bytes → ℕ → ℕ → ℕ → Bool
byte_in s k lo hi = elim (get_elem? s k) [ none ↦ false | some c ↦ leb lo c && leb c hi ]

abbrev pub within : ℕ → ℕ → ℕ → Bool
within lo hi c = leb lo c && leb c hi

-- The tests on the second byte, on the second and third, and on the second to fourth.
unfoldable pub one_follows : Bytes → Bool
one_follows s = byte_in s 1 0x80 0xbf

unfoldable pub two_follow : Bytes → ℕ → ℕ → Bool
two_follow s lo hi = byte_in s 1 lo hi && byte_in s 2 0x80 0xbf

unfoldable pub three_follow : Bytes → ℕ → ℕ → Bool
three_follow s lo hi = byte_in s 1 lo hi && (byte_in s 2 0x80 0xbf && byte_in s 3 0x80 0xbf)

-- `sequence_length` at a byte of 0x80 or more: 0 where `valid_sequence` stays 0.
unfoldable pub sequence_length : ℕ → Bytes → ℕ
sequence_length c s =
    if within 0xc2 0xdf c && one_follows s
    then 2
    else if c == 0xe0 && two_follow s 0xa0 0xbf
    then 3
    else if within 0xe1 0xec c && two_follow s 0x80 0xbf
    then 3
    else if c == 0xed && two_follow s 0x80 0x9f
    then 3
    else if within 0xee 0xef c && two_follow s 0x80 0xbf
    then 3
    else if c == 0xf0 && three_follow s 0x90 0xbf
    then 4
    else if within 0xf1 0xf3 c && three_follow s 0x80 0xbf
    then 4
    else if c == 0xf4 && three_follow s 0x80 0x8f
    then 4
    else 0

-- What the loop does at one byte, and how many bytes after it are consumed with it.
pub data Chunk : Type 0 where
  copied : ℕ → Chunk
  escaped : Bytes → Chunk

classify_high : ℕ → Bytes → Chunk
unfolding sequence_length
classify_high c s =
    let n = sequence_length c s in if n == 0 then escaped (unicode_escape c) else copied n

classify_default : ℕ → Bytes → Chunk
unfolding classify_high
classify_default c s =
    if ltb c 0x20
    then escaped (unicode_escape c)
    else if leb 0x80 c
    then classify_high c s
    else copied 1

-- The `switch` of `cubicle_json_builder_append_string_n` at byte `c`, the first of `s`.
unfoldable pub classify : ℕ → Bytes → Chunk
unfolding classify_default
classify c s = elim (short_escape c) [
  | some e ↦ escaped (backslash ∷ e ∷ [])
  | none ↦ classify_default c s
]
