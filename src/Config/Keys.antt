-- ===== src/Config/Keys.antt =====
-- src/common/config.c, the names of keys: `cubicle_config_parse_desk_key_name` and what it calls. `none` is
-- -1; the texts of the errors are left out. Every caller has a buffer of 64 bytes for the normal name.
use cubicle.Base.{
  ℕ, Bytes, Option, none, some, true, false, leb, ◌++◌, ◌*◌, ◌+◌, ◌&&◌, zero, ◌∷◌, ◌||◌, [], suc,
  Bool, ltb, if◌then◌else◌, length, ◌/◌, ◌-◌, ◌==◌, ◌%◌, codes,
}

abbrev pub key_name_max : ℕ
key_name_max = 64

abbrev pub key_sequence_max : ℕ
key_sequence_max = 16

-- `snprintf(buffer, capacity, "%s", text)` with its check.
abbrev pub printed : ℕ → Bytes → Option Bytes
printed capacity text = if ltb (length text) capacity then some text else none

-- `tolower` of the C locale.
unfoldable pub to_lower : ℕ → ℕ
to_lower c = if leb b'A' c && leb c b'Z' then c + 32 else c

unfoldable pub string_equals_case : Bytes → Bytes → Bool
unfolding to_lower
string_equals_case [] [] = true
string_equals_case [] (d ∷ right) = false
string_equals_case (c ∷ left) [] = false
string_equals_case (c ∷ left) (d ∷ right) =
    to_lower c == to_lower d && string_equals_case left right

-- A byte above 127 is a negative `char`, and refused like one above `_`.
unfoldable pub parse_control_key_char : ℕ → Option ℕ
parse_control_key_char given =
    let ch = if leb b'a' given && leb given b'z' then given - 32 else given in
    if ch == b' ' || ch == b'@'
    then some 0
    else if ltb ch b'A' || ltb b'_' ch
    then none
    else some (ch - b'@')

pub record Modifiers : Type 0 where
  pub shift : Bool
  pub alt : Bool
  pub control : Bool

abbrev pub no_modifiers : Modifiers
no_modifiers = record { shift = false; alt = false; control = false }

abbrev pub only_control : Modifiers
only_control = record { shift = false; alt = false; control = true }

abbrev pub modifier_value : Modifiers → ℕ
modifier_value m =
    1 + (if m.shift then 1 else 0) + (if m.alt then 2 else 0) + (if m.control then 4 else 0)

unfoldable pub parse_modifier_token : Bytes → Modifiers → Option Modifiers
unfolding string_equals_case
parse_modifier_token token m =
    if string_equals_case token (codes "S") || string_equals_case token (codes "Shift")
    then some (record m { shift = true })
    else if string_equals_case token (codes "M")
        || (string_equals_case token (codes "Meta") || string_equals_case token (codes "Alt"))
    then some (record m { alt = true })
    else if string_equals_case token (codes "C")
        || (string_equals_case token (codes "Ctrl") || string_equals_case token (codes "Control"))
    then some (record m { control = true })
    else none

-- What stands before the first dash, and behind it.
unfoldable pub split_dash : Bytes → Option (Bytes × Bytes)
split_dash [] = none
split_dash (c ∷ text) =
    let later = split_dash text in
    if c == b'-'
    then some ([], text)
    else elim later [ none ↦ none | some (token, rest) ↦ some (c ∷ token, rest) ]

-- The modifiers in front of a name, and what they stand before. Each turn takes a dash away, so that the
-- length of the name is fuel enough.
unfoldable pub take_modifiers : ℕ → Bytes → Modifiers → Modifiers × Bytes
unfolding split_dash parse_modifier_token
take_modifiers zero base m = (m, base)
take_modifiers (suc fuel) base m = elim (split_dash base) [
  | none ↦ (m, base)
  | some (token, rest) ↦ elim (parse_modifier_token token m) [
    | none ↦ (m, base)
    | some more ↦ take_modifiers fuel rest more
  ]
]

unfoldable pub canonical_modifier_prefix : Modifiers → Bytes → Option Bytes
canonical_modifier_prefix m base = printed key_name_max (
    (if m.control then codes "C-" else [])
    ++ ((if m.alt then codes "M-" else []) ++ ((if m.shift then codes "S-" else []) ++ base)))

-- What `special_key_code` finds: one of its three results is set.
pub data Special : Type 0 where
  tilde_code csi_final ss3_final : ℕ → Special

-- The value of a text of digits.
unfoldable pub all_digits : ℕ → Bytes → Option ℕ
all_digits value [] = some value
all_digits value (c ∷ text) =
    let rest = all_digits (value * 10 + (c - 48)) text in
    if leb b'0' c && leb c b'9' then rest else none

abbrev pub function_key : ℕ → Special
function_key value =
    if value == 1
    then ss3_final b'P'
    else if value == 2
    then ss3_final b'Q'
    else if value == 3
    then ss3_final b'R'
    else if value == 4
    then ss3_final b'S'
    else if value == 5
    then tilde_code 15
    else if leb value 10
    then tilde_code (value + 11)
    else tilde_code (value + 12)

-- The `F` keys: the digits may not begin with 0.
unfoldable pub parse_function_key : Bytes → Option Special
unfolding all_digits
parse_function_key (f ∷ d ∷ text) =
    if (f == b'F' || f == b'f') && (leb b'1' d && leb d b'9')
    then elim (all_digits 0 (d ∷ text)) [
      | none ↦ none
      | some value ↦ if leb value 12 then some (function_key value) else none
    ]
    else none
parse_function_key _ = none

unfoldable pub special_key_code : Bytes → Option Special
unfolding string_equals_case parse_function_key
special_key_code base =
    if string_equals_case base (codes "Up")
    then some (csi_final b'A')
    else if string_equals_case base (codes "Down")
    then some (csi_final b'B')
    else if string_equals_case base (codes "Right")
    then some (csi_final b'C')
    else if string_equals_case base (codes "Left")
    then some (csi_final b'D')
    else if string_equals_case base (codes "Home")
    then some (csi_final b'H')
    else if string_equals_case base (codes "End")
    then some (csi_final b'F')
    else if string_equals_case base (codes "Insert") || string_equals_case base (codes "Ins")
    then some (tilde_code 2)
    else if string_equals_case base (codes "Delete") || string_equals_case base (codes "Del")
    then some (tilde_code 3)
    else if string_equals_case base (codes "PageUp") || string_equals_case base (codes "PgUp")
    then some (tilde_code 5)
    else if string_equals_case base (codes "PageDown") || string_equals_case base (codes "PgDn")
    then some (tilde_code 6)
    else parse_function_key base

-- `%d` of a number below 100.
unfoldable pub two_digits : ℕ → Bytes
two_digits n = if ltb n 10 then (48 + n) ∷ [] else (48 + n / 10) ∷ (48 + n % 10) ∷ []

-- What the key sends, and its normal name.
abbrev pub Spelled : Type 0
Spelled = Bytes × Bytes

abbrev pub with_name : Option Bytes → Bytes → Option Spelled
with_name none sequence = none
with_name (some name) sequence = some (sequence, name)

-- A control character.
unfoldable pub spell_control : Option ℕ → Option Spelled
unfolding canonical_modifier_prefix
spell_control none = none
spell_control (some parsed) =
    with_name
      (canonical_modifier_prefix only_control
        (if parsed == 0 then codes "Space" else (parsed + b'@') ∷ []))
      (parsed ∷ [])

-- `Space`, or one character.
unfoldable pub parse_control_name : Bytes → Option ℕ
unfolding string_equals_case parse_control_key_char
parse_control_name ch = if string_equals_case ch (codes "Space") then some 0 else elim ch [
  | [] ↦ none
  | c ∷ rest ↦ if length rest == 0 then parse_control_key_char c else none
]

-- A special key with modifiers.
unfoldable pub spell_modified : Special → Modifiers → Bytes → Option Spelled
unfolding canonical_modifier_prefix two_digits
spell_modified (tilde_code code) m base =
    with_name (canonical_modifier_prefix m base)
      (27 ∷ b'[' ∷ (two_digits code ++ b';' ∷ (two_digits (modifier_value m) ++ b'~' ∷ [])))
spell_modified (csi_final final) m base =
    with_name (canonical_modifier_prefix m base)
      (27 ∷ b'[' ∷ b'1' ∷ b';' ∷ (two_digits (modifier_value m) ++ final ∷ []))
spell_modified (ss3_final final) m base =
    with_name (canonical_modifier_prefix m base)
      (27 ∷ b'[' ∷ b'1' ∷ b';' ∷ (two_digits (modifier_value m) ++ final ∷ []))

-- A special key without modifiers.
unfoldable pub spell_special : Special → Bytes → Option Spelled
unfolding two_digits
spell_special (tilde_code code) name =
    with_name (printed key_name_max name) (27 ∷ b'[' ∷ (two_digits code ++ b'~' ∷ []))
spell_special (csi_final final) name =
    with_name (printed key_name_max name) (27 ∷ b'[' ∷ final ∷ [])
spell_special (ss3_final final) name =
    with_name (printed key_name_max name) (27 ∷ b'O' ∷ final ∷ [])
