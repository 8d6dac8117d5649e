-- ===== src/Config/KeyParser.antt =====
-- src/common/config.c: `cubicle_config_parse_desk_key_name` itself.
use cubicle.Base.{
  ℕ, Bytes, Option, none, some, true, false, ◌==◌, length, [], get_or, ◌||◌, leb, Bool, ◌∷◌, not,
  codes, ◌++◌, ◌&&◌, ltb, if◌then◌else◌,
}
use cubicle.Config.Keys.{
  Spelled, Modifiers, spell_control, take_modifiers, split_dash, special_key_code, key_sequence_max,
  string_equals_case, canonical_modifier_prefix, printed, parse_control_key_char, key_name_max,
  spell_modified, no_modifiers, parse_control_name, with_name, spell_special,
}

pub record KeyName : Type 0 where
  pub uses_prefix : Bool
  pub key : ℕ
  pub sequence : Bytes
  pub normalized : Bytes

-- `strncmp(name, prefix, strlen(prefix)) == 0`, with what follows.
unfoldable pub after_prefix : Bytes → Bytes → Option Bytes
after_prefix [] name = some name
after_prefix (c ∷ prefix) [] = none
after_prefix (c ∷ prefix) (d ∷ name) =
    let rest = after_prefix prefix name in if c == d then rest else none

abbrev pub either {ℓ} : {A : Type ℓ} → Option A → Option A → Option A
either none later = later
either (some found) later = some found

abbrev pub has_dash : Bytes → Bool
unfolding split_dash
has_dash text = elim (split_dash text) [ none ↦ false | some parts ↦ true ]

-- `Control-X` and `Ctrl-X`, where no other dash follows.
unfoldable pub long_control : Bytes → Option Bytes
unfolding after_prefix has_dash
long_control name =
    elim (either (after_prefix (codes "Control-") name) (after_prefix (codes "control-") name)) [
      | some ch ↦ if has_dash ch then none else some ch
      | none ↦
          elim (either (after_prefix (codes "Ctrl-") name) (after_prefix (codes "ctrl-") name)) [
            | some ch ↦ if has_dash ch then none else some ch
            | none ↦ none
          ]
    ]

-- `^X`.
abbrev pub caret : Bytes → Option ℕ
caret (c ∷ d ∷ []) = if c == b'^' then some d else none
caret _ = none

-- The keys that have names of their own: what they send and their normal name.
unfoldable pub named_key : Bytes → Option Spelled
unfolding string_equals_case
named_key name =
    if string_equals_case name (codes "Space")
    then some (b' ' ∷ [], codes "Space")
    else if string_equals_case name (codes "Enter") || string_equals_case name (codes "Return")
    then some (13 ∷ [], codes "Enter")
    else if string_equals_case name (codes "Escape") || string_equals_case name (codes "Esc")
    then some (27 ∷ [], codes "Escape")
    else if string_equals_case name (codes "Backspace")
    then some (127 ∷ [], codes "Backspace")
    else if string_equals_case name (codes "Tab")
    then some (9 ∷ [], codes "Tab")
    else none

-- Meta with one character, which control may turn into a control character.
unfoldable pub spell_meta : Modifiers → Bytes → Option Spelled
unfolding canonical_modifier_prefix parse_control_key_char
spell_meta m (c ∷ []) =
    if m.alt && not m.shift
    then elim (if m.control then parse_control_key_char c else some c) [
      | none ↦ none
      | some parsed ↦ with_name (canonical_modifier_prefix m (c ∷ [])) (27 ∷ parsed ∷ [])
    ]
    else none
spell_meta m _ = none

-- `C-X`.
unfoldable pub spell_short_control : Bytes → Modifiers → Bytes → Option Spelled
unfolding special_key_code spell_modified spell_control parse_control_name
spell_short_control ch m base = elim (special_key_code base) [
  | some special ↦ spell_modified special m base
  | none ↦ spell_control (parse_control_name ch)
]

-- A name without a prefix, by the branches of the source.
unfoldable pub spell : Bytes → Modifiers → Bytes → Option Spelled
unfolding spell_control parse_control_key_char long_control parse_control_name spell_short_control
    named_key spell_meta special_key_code spell_modified spell_special
spell name m base = elim (caret name) [
  | some ch ↦ spell_control (parse_control_key_char ch)
  | none ↦ elim (long_control name) [
    | some ch ↦ spell_control (parse_control_name ch)
    | none ↦ elim (either (after_prefix (codes "C-") name) (after_prefix (codes "c-") name)) [
      | some ch ↦ spell_short_control ch m base
      | none ↦ elim (named_key name) [
        | some spelled ↦ some spelled
        | none ↦
            if m.shift || (m.alt || m.control)
            then elim (special_key_code base) [
              | some special ↦ spell_modified special m base
              | none ↦ spell_meta m base
            ]
            else elim (special_key_code name) [
              | some special ↦ spell_special special name
              | none ↦ elim name [
                | [] ↦ none
                | c ∷ rest ↦ if length rest == 0 then some (c ∷ [], c ∷ []) else none
              ]
            ]
      ]
    ]
  ]
]

-- The checks behind the branches, and the prefix in front of the normal name.
unfoldable pub finish : Bool → Spelled → Option KeyName
finish uses_prefix (sequence, name) =
    if length sequence == 0 || ltb key_sequence_max (length sequence)
    then none
    else elim (if uses_prefix then printed key_name_max (codes "Prefix-" ++ name) else some name) [
      | none ↦ none
      | some normalized ↦ some (record {
        uses_prefix = uses_prefix;
        key = get_or sequence 0 0;
        sequence = sequence;
        normalized = normalized;
      })
    ]

unfoldable pub parse_name : Bool → Bytes → Option KeyName
unfolding take_modifiers spell finish
parse_name uses_prefix name =
    if leb key_name_max (length name)
    then none
    else (let (m, base) = take_modifiers (length name) name no_modifiers in
        elim (spell name m base) [ none ↦ none | some spelled ↦ finish uses_prefix spelled ])

unfoldable pub parse_desk_key_name : Bytes → Option KeyName
unfolding parse_name after_prefix
parse_desk_key_name text =
    if length text == 0
    then none
    else elim (either (after_prefix (codes "Prefix-") text) (after_prefix (codes "prefix-") text)) [
      | some name ↦ parse_name true name
      | none ↦ parse_name false text
    ]
