-- ===== src/Config/Bindings.antt =====
-- src/common/config.c: the bindings of the desktop's keys. `none` is -1; the texts of the errors are left
-- out.
use cubicle.Config.File.{same_text}
use cubicle.Base.{
  ℕ, Bytes, Option, none, some, true, false, ◌||◌, leb, ◌&&◌, Bool, if◌then◌else◌, [], ◌∷◌, List,
  length, codes, not, ◌==◌,
}
use cubicle.Config.KeyParser.{KeyName, parse_desk_key_name}

pub record Binding : Type 0 where
  pub uses_prefix : Bool
  pub key : ℕ
  pub sequence : Bytes
  pub key_name : Bytes
  pub command : Bytes
  pub unbind : Bool
  pub builtin : Bool

abbrev pub binding_max : ℕ
binding_max = 64

abbrev pub command_name_max : ℕ
command_name_max = 64

abbrev pub binding_value_max : ℕ
binding_value_max = 160

-- The commands that `desk_command_is_known` compares with.
abbrev pub known_commands : List Bytes
known_commands =
    codes "pane.next"
    ∷ codes "pane.previous"
    ∷ codes "pane.left"
    ∷ codes "pane.right"
    ∷ codes "pane.above"
    ∷ codes "pane.below"
    ∷ codes "layout.zoom"
    ∷ codes "layout.resize.toggle"
    ∷ codes "layout.movepane"
    ∷ codes "layout.transpose"
    ∷ codes "layout.addleft"
    ∷ codes "layout.addright"
    ∷ codes "layout.addtop"
    ∷ codes "layout.addbottom"
    ∷ codes "layout.split.horizontal"
    ∷ codes "layout.split.vertical"
    ∷ codes "layout.delete"
    ∷ codes "layout.reset"
    ∷ codes "layout.zoom.horizontal"
    ∷ codes "layout.zoom.vertical"
    ∷ codes "layout.save"
    ∷ codes "layout.load"
    ∷ codes "bindings.show"
    ∷ codes "scroll.page_up"
    ∷ codes "scroll.page_down"
    ∷ codes "scroll.line_up"
    ∷ codes "scroll.line_down"
    ∷ codes "scroll.top"
    ∷ codes "scroll.bottom"
    ∷ codes "menu.open"
    ∷ codes "mouse.toggle"
    ∷ codes "quit"
    ∷ []

unfoldable pub is_one_of : Bytes → List Bytes → Bool
is_one_of command [] = false
is_one_of command (known ∷ others) = same_text command known || is_one_of command others

unfoldable pub desk_command_is_known : Bytes → Bool
unfolding is_one_of
desk_command_is_known command = is_one_of command known_commands

abbrev pub same_flag : Bool → Bool → Bool
same_flag true b = b
same_flag false b = not b

-- The same key, with or without the prefix.
abbrev pub same_key : Binding → Binding → Bool
same_key a b = same_flag a.uses_prefix b.uses_prefix && same_text a.sequence b.sequence

-- The loop over the bindings that there are: a binding of the same key is taken away, replaced if it was
-- built in, or in the way.
unfoldable pub place : Binding → List Binding → Option (List Binding)
place binding [] = some (if binding.unbind then [] else binding ∷ [])
place binding (existing ∷ rest) =
    let later = place binding rest in
    if same_key existing binding
    then (if binding.unbind
        then some rest
        else if existing.builtin
        then some (binding ∷ rest)
        else none)
    else elim later [ none ↦ none | some placed ↦ some (existing ∷ placed) ]

abbrev pub new_binding : KeyName → Bytes → Bool → Bool → Binding
new_binding parsed command unbind builtin = record {
  uses_prefix = parsed.uses_prefix;
  key = parsed.key;
  sequence = parsed.sequence;
  key_name = parsed.normalized;
  command = command;
  unbind = unbind;
  builtin = builtin;
}

-- The bindings after `add_desk_key_binding`.
unfoldable pub add_desk_key_binding : List Binding → Bytes → Bytes → Bool → Option (List Binding)
unfolding place parse_desk_key_name desk_command_is_known
add_desk_key_binding bindings key_name command builtin =
    if leb binding_max (length bindings) then none else elim (parse_desk_key_name key_name) [
      | none ↦ none
      | some parsed ↦
          let unbind = same_text command (codes "none") in
          if not unbind && not (desk_command_is_known command)
          then none
          else if leb command_name_max (length command)
          then none
          else place (new_binding parsed command unbind builtin) bindings
    ]

abbrev pub is_blank : ℕ → Bool
is_blank c = c == b' ' || c == 9

abbrev pub is_space_or_end : ℕ → Bool
is_space_or_end c = is_blank c || (c == 13 || c == 10)

unfoldable pub skip_blanks : Bytes → Bytes
skip_blanks [] = []
skip_blanks (c ∷ text) = let rest = skip_blanks text in if is_blank c then rest else c ∷ text

-- The word in front of the first blank, and what stands behind that blank; `none` at the end.
unfoldable pub split_blank : Bytes → Option (Bytes × Bytes)
split_blank [] = none
split_blank (c ∷ text) =
    let later = split_blank text in
    if is_blank c
    then some ([], text)
    else elim later [ none ↦ none | some (word, rest) ↦ some (c ∷ word, rest) ]

-- Without the blanks and line ends at its end.
unfoldable pub trim_end : Bytes → Bytes
trim_end [] = []
trim_end (c ∷ text) = elim (trim_end text) [
  | [] ↦ if is_space_or_end c then [] else c ∷ []
  | d ∷ rest ↦ c ∷ d ∷ rest
]

unfoldable pub parse_desk_binding_value : List Binding → Bytes → Option (List Binding)
unfolding skip_blanks split_blank trim_end add_desk_key_binding
parse_desk_binding_value bindings value =
    if leb binding_value_max (length value) then none else elim (split_blank (skip_blanks value)) [
      | none ↦ none
      | some (key, rest) ↦
          let command = trim_end (skip_blanks rest) in
          if length key == 0 || length command == 0
          then none
          else add_desk_key_binding bindings key command false
    ]

unfoldable pub conflicts_with : Binding → List Binding → Bool
conflicts_with left [] = false
conflicts_with left (right ∷ rest) =
    (not right.unbind && same_key left right) || conflicts_with left rest

-- Whether `validate_desk_key_conflicts` returns 0.
unfoldable pub validate_desk_key_conflicts : List Binding → Bool
unfolding conflicts_with
validate_desk_key_conflicts [] = true
validate_desk_key_conflicts (left ∷ rest) =
    not (not left.unbind && conflicts_with left rest) && validate_desk_key_conflicts rest
