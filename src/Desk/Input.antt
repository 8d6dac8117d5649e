-- ===== src/Desk/Input.antt =====
-- The keys that the desktop reads itself: scrolling, resizing and moving. The input is what stands from the
-- offset of the source on.
use cubicle.Base.{
  ℕ, Bytes, Option, none, some, true, false, if◌then◌else◌, leb, ◌%◌, ◌+◌, Bool, ◌==◌, ◌-◌, length,
  ◌&&◌, ◌^◌, codes, ◌∷◌, ◌||◌, [], not, ◌*◌,
}
use cubicle.Desk.Edit.{Direction, to_left, to_right, to_above, to_below}
use cubicle.Desk.Resize.{
  Side, left_side, right_side, top_side, bottom_side, Delta, grow_by, shrink_by,
}

-- What `parse_scroll_mode_key` finds: nothing to read, the start of a key, or a key of so many bytes, with
-- its command where it has one.
pub data ScrollKey : Type 0 where
  no_input : ScrollKey
  need_more : ScrollKey
  consumed : Option Bytes → ℕ → ScrollKey

-- The command of a cursor key by its last byte.
abbrev pub cursor_command : ℕ → Option Bytes
cursor_command final =
    if final == b'A' || final == b'D'
    then some (codes "scroll.line_up")
    else if final == b'B' || final == b'C'
    then some (codes "scroll.line_down")
    else if final == b'H'
    then some (codes "scroll.top")
    else if final == b'F'
    then some (codes "scroll.bottom")
    else none

-- The bytes in front of the first one that passes a test, and that byte.
unfoldable pub until : (ℕ → Bool) → Bytes → Option (Bytes × ℕ)
until ends [] = none
until ends (c ∷ input) =
    let later = until ends input in
    if ends c
    then some ([], c)
    else elim later [ none ↦ none | some (front, final) ↦ some (c ∷ front, final) ]

abbrev pub is_final : ℕ → Bool
is_final c = leb 0x40 c && leb c 0x7e

unfoldable pub skip_questions : Bytes → Bytes
skip_questions [] = []
skip_questions (c ∷ params) =
    let rest = skip_questions params in if c == b'?' then rest else c ∷ params

-- The value of a text that is digits alone, on an `unsigned int`.
unfoldable pub number_of : ℕ → Bytes → Option ℕ
number_of value [] = some value
number_of value (c ∷ params) =
    let rest = number_of ((value * 10 + (c - 48)) % 2 ^ 32) params in
    if leb b'0' c && leb c b'9' then rest else none

abbrev pub tilde_command : ℕ → Option Bytes
tilde_command value =
    if value == 1 || value == 7
    then some (codes "scroll.top")
    else if value == 4 || value == 8
    then some (codes "scroll.bottom")
    else if value == 5
    then some (codes "scroll.page_up")
    else if value == 6
    then some (codes "scroll.page_down")
    else none

unfoldable pub params_command : Bytes → Option Bytes
unfolding skip_questions number_of
params_command params =
    let digits = skip_questions params in
    if length digits == 0
    then none
    else elim (number_of 0 digits) [ none ↦ none | some value ↦ tilde_command value ]

-- What stands behind `ESC [`.
unfoldable pub scroll_sequence : Bytes → ScrollKey
unfolding until params_command
scroll_sequence input = elim (until is_final input) [
  | none ↦ need_more
  | some (params, final) ↦
      consumed (if final == b'~' then params_command params else cursor_command final)
        (length params + 3)
]

unfoldable pub parse_scroll_mode_key : Bytes → ScrollKey
unfolding scroll_sequence
parse_scroll_mode_key [] = no_input
parse_scroll_mode_key (c ∷ input) =
    if c == b'q' || c == b's'
    then consumed (some (codes "scroll.exit")) 1
    else if not (c == 27)
    then consumed none 1
    else elim input [
      | [] ↦ need_more
      | d ∷ rest ↦
          if d == b'O'
          then elim rest [ [] ↦ need_more | final ∷ others ↦ consumed (cursor_command final) 3 ]
          else if not (d == b'[')
          then consumed (some (codes "scroll.exit")) 1
          else scroll_sequence rest
    ]

abbrev pub is_arrow : ℕ → Bool
is_arrow c = leb b'A' c && leb c b'D'

-- Whether `;2` stands among the bytes in front of the last one.
unfoldable pub is_shifted : Bytes → Bool
is_shifted [] = false
is_shifted (c ∷ []) = false
is_shifted (c ∷ d ∷ params) =
    let rest = is_shifted (d ∷ params) in if c == b';' && d == b'2' then true else rest

abbrev pub arrow_side : Bool → ℕ → Side
arrow_side shifted final =
    if final == b'A' || final == b'B'
    then (if shifted then bottom_side else top_side)
    else (if shifted then right_side else left_side)

abbrev pub arrow_delta : ℕ → Delta
arrow_delta final = if final == b'A' || final == b'D' then shrink_by 1 else grow_by 1

-- The side, the change and the bytes that the key takes.
unfoldable pub parse_resize_arrow : Bytes → Option (Side × Delta × ℕ)
unfolding until is_shifted
parse_resize_arrow (e ∷ b ∷ c ∷ input) =
    if not (e == 27) || not (b == b'[') then none else elim (until is_arrow (c ∷ input)) [
      | none ↦ none
      | some (params, final) ↦
          some (arrow_side (is_shifted params) final, arrow_delta final, length params + 3)
    ]
parse_resize_arrow _ = none

-- The direction of a plain arrow key, which takes three bytes.
unfoldable pub parse_plain_arrow_key : Bytes → Option Direction
parse_plain_arrow_key (e ∷ b ∷ c ∷ input) =
    if not (e == 27) || not (b == b'[')
    then none
    else if c == b'A'
    then some to_above
    else if c == b'B'
    then some to_below
    else if c == b'C'
    then some to_right
    else if c == b'D'
    then some to_left
    else none
parse_plain_arrow_key _ = none
