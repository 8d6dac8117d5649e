-- ===== src/Config/KeyBounds.antt =====
-- What the names of keys give fits the buffers of a binding.
use cubicle.Base.{
  ℕ, Bytes, Option, none, some, true, false, codes, ◌≤◌, ◌∷◌, if◌then◌else◌, length-append, inr,
  ◌&&◌, [], Bool, arith, ◌<◌, ltb→lt, Bool-cases, inl, Option-cases, ltb, length, ◌++◌, not, ◌+◌,
  ◌==◌, ◌||◌, ◌≡◌, get_elem?, refl, subst, leb,
}
use cubicle.Config.Keys.{
  Spelled, printed, key_name_max, key_sequence_max, with_name, Special, tilde_code, csi_final,
  ss3_final, Modifiers, spell_control, spell_special, two_digits, spell_modified,
  string_equals_case, canonical_modifier_prefix, parse_control_key_char, modifier_value,
  only_control, special_key_code, parse_control_name, take_modifiers, no_modifiers,
}
use cubicle.Config.KeyParser.{
  parse_name, either, after_prefix, KeyName, finish, spell, parse_desk_key_name, spell_meta,
  named_key, spell_short_control, caret, long_control, either, after_prefix,
}

-- Between one and 16 bytes to send, and a name of less than 64.
abbrev Fits : Option Spelled → Type 0
Fits none = Unit
Fits (some (sequence, name)) =
    (0 < length sequence) × (length sequence ≤ key_sequence_max) × (length name < key_name_max)

printed-Fits :
    (text sequence : Bytes)
    → 0 < length sequence
    → length sequence ≤ key_sequence_max
    → Fits (with_name (printed key_name_max text) sequence)
printed-Fits text sequence some_byte small = elim (Bool-cases (ltb (length text) key_name_max)) [
  | inl fits ↦ rw fits (some_byte, small, ltb→lt _ _ fits)
  | inr long ↦ rw long tt
]

canonical-Fits :
    (m : Modifiers) (base sequence : Bytes)
    → 0 < length sequence
    → length sequence ≤ key_sequence_max
    → Fits (with_name (canonical_modifier_prefix m base) sequence)
unfolding canonical_modifier_prefix
canonical-Fits m base sequence = printed-Fits _ sequence

length-two_digits : (n : ℕ) → (1 ≤ length (two_digits n)) × (length (two_digits n) ≤ 2)
unfolding two_digits
length-two_digits n = (ground arith, ground arith)

spell_control-Fits : (parsed : Option ℕ) → Fits (spell_control parsed)
unfolding spell_control
spell_control-Fits none = tt
spell_control-Fits (some parsed) =
    canonical-Fits only_control (if parsed == 0 then codes "Space" else (parsed + b'@') ∷ [])
      (parsed ∷ []) (omega arith) (omega arith)

spell_modified-Fits :
    (special : Special) (m : Modifiers) (base : Bytes) → Fits (spell_modified special m base)
unfolding spell_modified
spell_modified-Fits (tilde_code code) m base =
    canonical-Fits m base
      (27 ∷ b'[' ∷ (two_digits code ++ b';' ∷ (two_digits (modifier_value m) ++ b'~' ∷ [])))
      (omega arith)
      (omega (
        arith,
        length-two_digits code,
        length-two_digits (modifier_value m),
        length-append (two_digits code) (b';' ∷ (two_digits (modifier_value m) ++ b'~' ∷ [])),
        length-append (two_digits (modifier_value m)) (b'~' ∷ []),
      ))
spell_modified-Fits (csi_final final) m base =
    canonical-Fits m base (27 ∷ b'[' ∷ b'1' ∷ b';' ∷ (two_digits (modifier_value m) ++ final ∷ []))
      (omega arith)
      (omega (
        arith,
        length-two_digits (modifier_value m),
        length-append (two_digits (modifier_value m)) (final ∷ []),
      ))
spell_modified-Fits (ss3_final final) m base =
    canonical-Fits m base (27 ∷ b'[' ∷ b'1' ∷ b';' ∷ (two_digits (modifier_value m) ++ final ∷ []))
      (omega arith)
      (omega (
        arith,
        length-two_digits (modifier_value m),
        length-append (two_digits (modifier_value m)) (final ∷ []),
      ))

spell_special-Fits : (special : Special) (name : Bytes) → Fits (spell_special special name)
unfolding spell_special
spell_special-Fits (tilde_code code) name =
    printed-Fits name (27 ∷ b'[' ∷ (two_digits code ++ b'~' ∷ [])) (omega arith)
      (omega (arith, length-two_digits code, length-append (two_digits code) (b'~' ∷ [])))
spell_special-Fits (csi_final final) name =
    printed-Fits name (27 ∷ b'[' ∷ final ∷ []) (omega arith) (omega arith)
spell_special-Fits (ss3_final final) name =
    printed-Fits name (27 ∷ b'O' ∷ final ∷ []) (omega arith) (omega arith)

spell_meta-Fits : (m : Modifiers) (base : Bytes) → Fits (spell_meta m base)
unfolding spell_meta
spell_meta-Fits m [] = tt
spell_meta-Fits m (c ∷ d ∷ base) = tt
spell_meta-Fits m (c ∷ []) = elim (Bool-cases (m.alt && not m.shift)) [
  | inr no_meta ↦ rw no_meta tt
  | inl meta ↦ elim (Option-cases (if m.control then parse_control_key_char c else some c)) [
    | inl bad ↦ rw meta (rw bad tt)
    | inr (parsed, e) ↦
        rw meta (rw e (canonical-Fits m (c ∷ []) (27 ∷ parsed ∷ []) (omega arith) (omega arith)))
  ]
]

named_key-Fits : (name : Bytes) → Fits (named_key name)
unfolding named_key
named_key-Fits name = by_tests (string_equals_case name (codes "Space")) _ _ _ _
  where
    by_tests :
        (a b c d e : Bool)
        → Fits (
            if a
            then some (b' ' ∷ [], codes "Space")
            else if b
            then some (13 ∷ [], codes "Enter")
            else if c
            then some (27 ∷ [], codes "Escape")
            else if d
            then some (127 ∷ [], codes "Backspace")
            else if e
            then some (9 ∷ [], codes "Tab")
            else none)
    by_tests true b c d e = (omega arith, omega arith, omega arith)
    by_tests false true c d e = (omega arith, omega arith, omega arith)
    by_tests false false true d e = (omega arith, omega arith, omega arith)
    by_tests false false false true e = (omega arith, omega arith, omega arith)
    by_tests false false false false true = (omega arith, omega arith, omega arith)
    by_tests false false false false false = tt

-- By the outcome of a test.
Fits-option {ℓ} :
    {A : Type ℓ} (o : Option A) (missing : Option Spelled) (present : A → Option Spelled)
    → Fits missing
    → ((a : A) → Fits (present a))
    → Fits (elim o [ none ↦ missing | some a ↦ present a ])
Fits-option none missing present h k = h
Fits-option (some a) missing present h k = k a

Fits-found :
    (o later : Option Spelled)
    → Fits o
    → Fits later
    → Fits (elim o [ none ↦ later | some spelled ↦ some spelled ])
Fits-found none later h k = k
Fits-found (some spelled) later h k = h

Fits-if : (b : Bool) (x y : Option Spelled) → Fits x → Fits y → Fits (if b then x else y)
Fits-if true x y h k = h
Fits-if false x y h k = k

one_char-Fits :
    (name : Bytes)
    → let spelled : Option Spelled = elim name [
      | [] ↦ none
      | c ∷ rest ↦ if length rest == 0 then some (c ∷ [], c ∷ []) else none
    ] in
      Fits spelled
one_char-Fits [] = tt
one_char-Fits (c ∷ rest) =
    Fits-if (length rest == 0) (some (c ∷ [], c ∷ [])) none (omega arith, omega arith, omega arith)
      tt

spell_short_control-Fits :
    (ch : Bytes) (m : Modifiers) (base : Bytes) → Fits (spell_short_control ch m base)
unfolding spell_short_control
spell_short_control-Fits ch m base =
    Fits-option (special_key_code base) _ (λ special. spell_modified special m base)
      (spell_control-Fits (parse_control_name ch)) (λ special. spell_modified-Fits special m base)

spell-Fits : (name : Bytes) (m : Modifiers) (base : Bytes) → Fits (spell name m base)
unfolding spell
spell-Fits name m base =
    Fits-option (caret name) _ (λ ch. spell_control (parse_control_key_char ch))
      (Fits-option (long_control name) _ (λ ch. spell_control (parse_control_name ch))
        (Fits-option (either (after_prefix (codes "C-") name) (after_prefix (codes "c-") name)) _
          (λ ch. spell_short_control ch m base)
          (Fits-found (named_key name) _ (named_key-Fits name) (
            Fits-if (m.shift || (m.alt || m.control)) _ _
              (Fits-option (special_key_code base) _ (λ special. spell_modified special m base)
                (spell_meta-Fits m base) (λ special. spell_modified-Fits special m base))
              (Fits-option (special_key_code name) _ (λ special. spell_special special name)
                (one_char-Fits name) (λ special. spell_special-Fits special name))))
          (λ ch. spell_short_control-Fits ch m base))
        (λ ch. spell_control-Fits (parse_control_name ch)))
      (λ ch. spell_control-Fits (parse_control_key_char ch))

-- What a name gives fits its binding.
abbrev pub IsKeyName : KeyName → Type 0
IsKeyName k =
    (0 < length k.sequence)
    × (length k.sequence ≤ key_sequence_max)
    × (length k.normalized < key_name_max)
    × (get_elem? k.sequence 0 ≡ some k.key)

abbrev FitsKey : Option KeyName → Type 0
FitsKey none = Unit
FitsKey (some k) = IsKeyName k

FitsKey-if :
    (b : Bool) (x y : Option KeyName) → FitsKey x → FitsKey y → FitsKey (if b then x else y)
FitsKey-if true x y h k = h
FitsKey-if false x y h k = k

FitsKey-option {ℓ} :
    {A : Type ℓ} (o : Option A) (missing : Option KeyName) (present : A → Option KeyName)
    → FitsKey missing
    → ((a : A) → FitsKey (present a))
    → FitsKey (elim o [ none ↦ missing | some a ↦ present a ])
FitsKey-option none missing present h k = h
FitsKey-option (some a) missing present h k = k a

-- The names that are short enough.
abbrev IsShort : Option Bytes → Type 0
IsShort none = Unit
IsShort (some name) = length name < key_name_max

prefixed-IsShort :
    (uses_prefix : Bool) (name : Bytes)
    → length name < key_name_max
    → IsShort (if uses_prefix then printed key_name_max (codes "Prefix-" ++ name) else some name)
prefixed-IsShort false name h = h
prefixed-IsShort true name h =
    elim (Bool-cases (ltb (length (codes "Prefix-" ++ name)) key_name_max)) [
      | inl fits ↦ rw fits (ltb→lt _ _ fits)
      | inr long ↦ rw long tt
    ]

finish-FitsKey :
    (uses_prefix : Bool) (sequence name : Bytes)
    → Fits (some (sequence, name))
    → FitsKey (finish uses_prefix (sequence, name))
unfolding finish
finish-FitsKey uses_prefix [] name fits = absurd (omega (arith, fits.0))
finish-FitsKey uses_prefix (c ∷ rest) name fits =
    FitsKey-if (length (c ∷ rest) == 0 || ltb key_sequence_max (length (c ∷ rest))) none _ tt (
      record_of (if uses_prefix then printed key_name_max (codes "Prefix-" ++ name) else some name)
        (prefixed-IsShort uses_prefix name fits.2))
  where
    record_of :
        (o : Option Bytes)
        → IsShort o
        → let made : Option KeyName = elim o [
          | none ↦ none
          | some normalized ↦ some (record {
            uses_prefix = uses_prefix;
            key = c;
            sequence = c ∷ rest;
            normalized = normalized;
          })
        ] in
          FitsKey made
    record_of none short = tt
    record_of (some normalized) short = (fits.0, fits.1, short, refl)

spelled-FitsKey :
    (uses_prefix : Bool) (spelled : Option Spelled)
    → Fits spelled
    → let made : Option KeyName = elim spelled [ none ↦ none | some s ↦ finish uses_prefix s ] in
      FitsKey made
spelled-FitsKey uses_prefix none fits = tt
spelled-FitsKey uses_prefix (some (sequence, name)) fits =
    finish-FitsKey uses_prefix sequence name fits

parse_name-FitsKey : (uses_prefix : Bool) (name : Bytes) → FitsKey (parse_name uses_prefix name)
unfolding parse_name
parse_name-FitsKey uses_prefix name =
    let (m, base) = take_modifiers (length name) name no_modifiers in
    FitsKey-if (leb key_name_max (length name)) none _ tt
      (spelled-FitsKey uses_prefix (spell name m base) (spell-Fits name m base))

parse-FitsKey : (text : Bytes) → FitsKey (parse_desk_key_name text)
unfolding parse_desk_key_name
parse-FitsKey text = FitsKey-if (length text == 0) none _ tt (
    FitsKey-option
      (either (after_prefix (codes "Prefix-") text) (after_prefix (codes "prefix-") text)) _
      (λ name. parse_name true name) (parse_name-FitsKey false text)
      (λ name. parse_name-FitsKey true name))

-- Whatever text is accepted as the name of a key, the bytes that the key sends are between one and 16, the
-- first of them is the key that is stored, and the normal name, prefix included, is shorter than 64.
pub parse_desk_key_name-IsKeyName :
    (text : Bytes) (k : KeyName) → parse_desk_key_name text ≡ some k → IsKeyName k
parse_desk_key_name-IsKeyName text k h = subst FitsKey h (parse-FitsKey text)
