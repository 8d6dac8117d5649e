-- ===== src/Terminal/Cell.antt =====
-- The text and the style of a cell, from what libvterm gives: `cell_text_from_vterm` and
-- `cell_sgr_from_vterm` of src/common/terminal_model.c.
use cubicle.Base.{
  false, Bool, ◌==◌, not, ◌+◌, true, ◌&&◌, ◌/◌, [], if◌then◌else◌, ◌++◌, leb, codes, ◌%◌, ◌∷◌, List,
  set, length, ℕ, ◌-◌, Bytes, ltb, ◌^◌,
}
use cubicle.Base.Result.{Result, ◌>>=◌, ok, err, enospc}

-- `sizeof(target->text)` and `sizeof(target->sgr)`.
abbrev pub text_size : ℕ
text_size = 32

abbrev pub sgr_size : ℕ
sgr_size = 96

-- `buffer[0 .. used]` and the code point, of 32 bits; for a shift and a mask stand quotient and
-- remainder, and for `|` of disjoint bits the sum.
unfoldable pub append_utf8 : ℕ → Bytes → ℕ → Bytes
append_utf8 capacity written codepoint =
    if codepoint == 0
    then written
    else if ltb codepoint 0x80
    then (if ltb (length written + 1) capacity then written ++ codepoint ∷ [] else written)
    else if ltb codepoint 0x800
    then (if ltb (length written + 2) capacity
        then written ++ (0xc0 + codepoint / 2 ^ 6) ∷ (0x80 + codepoint % 2 ^ 6) ∷ []
        else written)
    else if ltb codepoint 0x10000
    then (if ltb (length written + 3) capacity
        then written
          ++ (0xe0 + codepoint / 2 ^ 12)
            ∷ (0x80 + codepoint / 2 ^ 6 % 2 ^ 6)
            ∷ (0x80 + codepoint % 2 ^ 6)
            ∷ []
        else written)
    else if leb codepoint 0x10ffff
    then (if ltb (length written + 4) capacity
        then written
          ++ (0xf0 + codepoint / 2 ^ 18)
            ∷ (0x80 + codepoint / 2 ^ 12 % 2 ^ 6)
            ∷ (0x80 + codepoint / 2 ^ 6 % 2 ^ 6)
            ∷ (0x80 + codepoint % 2 ^ 6)
            ∷ []
        else written)
    else written

-- The loop over the `VTERM_MAX_CHARS_PER_CELL` characters of a cell.
unfoldable pub append_chars : Bytes → List ℕ → Bytes
append_chars written [] = written
append_chars written (codepoint ∷ chars) =
    append_chars (append_utf8 text_size written codepoint) chars

unfoldable pub cell_text_from_vterm : List ℕ → Bytes
unfolding append_chars
cell_text_from_vterm chars = elim (append_chars [] chars) [ [] ↦ codes " " | c ∷ text ↦ c ∷ text ]

-- A `VTermColor`: the default, an index of the palette, or three bytes.
pub data Color : Type 0 where
  standard : Color
  indexed : ℕ → Color
  rgb : ℕ → ℕ → ℕ → Color

-- The attributes of a `VTermScreenCell` that are read, and its colours.
pub record Pen : Type 0 where
  pub bold : Bool
  pub italic : Bool
  pub underline : Bool
  pub blink : Bool
  pub reverse : Bool
  pub conceal : Bool
  pub strike : Bool
  pub fg : Color
  pub bg : Color

pub record VtermCell : Type 0 where
  pub chars : List ℕ
  pub pen : Pen

-- `cubicle_terminal_cell_t`.
pub record Cell : Type 0 where
  pub text : Bytes
  pub sgr : Bytes

-- `%u` and `%d` of a number below 1000: no colour and no attribute is above it.
unfoldable pub decimal : ℕ → Bytes
decimal n =
    if ltb n 10
    then (48 + n) ∷ []
    else if ltb n 100
    then (48 + n / 10) ∷ (48 + n % 10) ∷ []
    else (48 + n / 100) ∷ (48 + n / 10 % 10) ∷ (48 + n % 10) ∷ []

-- `snprintf(buffer + *used, capacity - *used, ...)` with its check.
unfoldable pub print_after : ℕ → Bytes → Bytes → Result Bytes
print_after capacity written text =
    if leb (capacity - length written) (length text) then err enospc else ok (written ++ text)

unfoldable pub append_sgr_number : ℕ → Bytes → Bytes → ℕ → Result Bytes
unfolding print_after decimal
append_sgr_number capacity written prefix value =
    print_after capacity written (prefix ++ decimal value)

unfoldable pub append_sgr_color : ℕ → Bytes → Bytes → Color → Result Bytes
unfolding print_after decimal
append_sgr_color capacity written prefix standard = ok written
append_sgr_color capacity written prefix (indexed index) =
    print_after capacity written (prefix ++ (codes "5;" ++ decimal index))
append_sgr_color capacity written prefix (rgb red green blue) = print_after capacity written (
    prefix
    ++ (codes "2;"
        ++ (decimal red ++ (codes ";" ++ (decimal green ++ (codes ";" ++ decimal blue))))))

-- `if (set && append_sgr_number(...) < 0) return -1;`.
unfoldable pub append_attribute : Bool → ℕ → Bytes → Result Bytes
unfolding append_sgr_number
append_attribute set value written =
    if set then append_sgr_number sgr_size written (codes ";") value else ok written

unfoldable pub append_color : Bytes → Color → Bytes → Result Bytes
unfolding append_sgr_color
append_color prefix color written = append_sgr_color sgr_size written prefix color

abbrev pub is_standard : Color → Bool
is_standard standard = true
is_standard _ = false

unfoldable pub is_plain : Pen → Bool
is_plain pen =
    not pen.bold
    && (not pen.underline
        && (not pen.italic
            && (not pen.blink
                && (not pen.reverse
                    && (not pen.conceal
                        && (not pen.strike && (is_standard pen.fg && is_standard pen.bg)))))))

-- The closing `m`, which needs room for the terminator behind it.
unfoldable pub close_sgr : Bytes → Result Bytes
close_sgr written =
    if leb sgr_size (length written + 1) then err enospc else ok (written ++ b'm' ∷ [])

unfoldable pub cell_sgr_from_vterm : Pen → Result Bytes
unfolding is_plain append_attribute append_color close_sgr
cell_sgr_from_vterm pen = if is_plain pen then ok [] else (do
  opened ← print_after sgr_size [] (27 ∷ codes "[0")
  bold ← append_attribute pen.bold 1 opened
  italic ← append_attribute pen.italic 3 bold
  underline ← append_attribute pen.underline 4 italic
  blink ← append_attribute pen.blink 5 underline
  reverse ← append_attribute pen.reverse 7 blink
  conceal ← append_attribute pen.conceal 8 reverse
  strike ← append_attribute pen.strike 9 conceal
  foreground ← append_color (codes ";38;") pen.fg strike
  background ← append_color (codes ";48;") pen.bg foreground
  close_sgr background)

-- The loop over the cells of a line.
unfoldable pub cells_from_vterm : List VtermCell → Result (List Cell)
unfolding cell_sgr_from_vterm cell_text_from_vterm
cells_from_vterm [] = ok []
cells_from_vterm (source ∷ sources) = do
  sgr ← cell_sgr_from_vterm source.pen
  cells ← cells_from_vterm sources
  ok (record { text = cell_text_from_vterm source.chars; sgr = sgr } ∷ cells)
