-- ===== src/Config/Entries.antt =====
-- What a file that was read holds.
use cubicle.Config.Lookup.{
  replace-here, replace-other, replace_value-nil, append_entry-entries, set_entries,
}
use cubicle.Base.{
  length, Bool-cases, false, subst, inr, ◌||◌, some, inl, arith, ◌==◌, ◌<◌, Bytes, if◌then◌else◌,
  ◌∷◌, All, Bool, Option-cases, ◌≡◌, [], true, ap, refl, List, ℕ, Option, ◌+◌, All-append, none,
}
use cubicle.Config.File.{
  ConfigFile, Entry, add_entry, keep_entry, split_at, replace_value, trim, matches, append_entry,
  can_copy,
}
use cubicle.Config.Parse.{
  ParseResult, parsed, failed, skipped, bad_section, no_separator, section, assignment, Line,
  assignment_line, line_of, section_line, read_lines, invalid_section, out_of_memory, c_text,
  expected_key_value, key_outside_section, config_file_read,
}

-- Each entry stands in a section whose name fits the reader's buffer, and has a key.
pub record IsEntry (e : Entry) : Type 0 where
  pub named : 0 < length e.group
  pub group_fits : length e.group < 256
  pub keyed : 0 < length e.key

abbrev pub IsSection : Bytes → Type 0
IsSection group = length group < 256

ParsesInto : ParseResult → Type 0
ParsesInto (parsed file) = All IsEntry file.entries
ParsesInto (failed e) = Unit

IsLine : Line → Type 0
IsLine (section name) = IsSection name
IsLine _ = Unit

if-IsLine :
    (b : Bool) (name : Bytes)
    → (b ≡ false → IsSection name)
    → IsLine (if b then bad_section else section name)
unfolding IsLine
if-IsLine true name h = tt
if-IsLine false name h = h refl

section_line-IsLine : (text : Bytes) → IsLine (section_line text)
unfolding section_line IsLine
section_line-IsLine text = elim (Option-cases (split_at b']' text)) [
  | inl none_e ↦ rw (none_e, section_line) tt
  | inr (parts, e) ↦ rw (e, section_line) (if-IsLine _ (trim parts.0) (λ h. ground arith))
]

assignment_line-IsLine : (text : Bytes) → IsLine (assignment_line text)
unfolding assignment_line IsLine
assignment_line-IsLine text = elim (Option-cases (split_at b'=' text)) [
  | inl none_e ↦ rw (none_e, assignment_line) tt
  | inr (parts, e) ↦ rw (e, assignment_line) tt
]

line_of-IsLine : (text : Bytes) → IsLine (line_of text)
unfolding line_of IsLine
line_of-IsLine [] = tt
line_of-IsLine (c ∷ text) = elim (Bool-cases (c == b'#' || c == b';')) [
  | inl comment ↦ rw comment tt
  | inr plain ↦ rw plain (elim (Bool-cases (c == b'[')) [
    | inl bracket ↦ rw bracket (section_line-IsLine text)
    | inr other ↦ rw other (assignment_line-IsLine (c ∷ text))
  ])
]

replace_value-IsEntry :
    (g k v : Bytes) (entries changed : List Entry)
    → All IsEntry entries
    → replace_value g k v entries ≡ some changed
    → All IsEntry changed
unfolding keep_entry
replace_value-IsEntry g k v [] changed all h = cc (h, replace_value-nil g k v [] [])
replace_value-IsEntry g k v (e ∷ entries) changed all h = elim (Bool-cases (matches g k e)) [
  | inl here ↦
      let same : (record e { value = v } ∷ entries) ≡ changed =
        cc (h, replace-here g k v [] [] e entries here) in
      subst (λ t. All IsEntry t) same
        (record { named = all.0.named; group_fits = all.0.group_fits; keyed = all.0.keyed }, all.1)
  | inr other ↦ elim (Option-cases (replace_value g k v entries)) [
    | inl nothing ↦
        cc (h, replace-other g k v [] [] e entries other, ap (λ o. keep_entry e o) nothing)
    | inr (rest, found) ↦
        let same : (e ∷ rest) ≡ changed =
          cc (h, replace-other g k v [] [] e entries other, ap (λ o. keep_entry e o) found) in
        subst (λ t. All IsEntry t) same
          (all.0, replace_value-IsEntry g k v entries rest all.1 found)
  ]
]

add_entry-IsEntry :
    (alloc : ℕ → Bool) (file changed : ConfigFile) (g k v : Bytes)
    → All IsEntry file.entries
    → IsEntry (record { group = g; key = k; value = v })
    → add_entry alloc file g k v ≡ some changed
    → All IsEntry changed.entries
unfolding add_entry
add_entry-IsEntry alloc file changed g k v all new h =
    elim (Option-cases (replace_value g k v file.entries)) [
      | inl nothing ↦
          let same : append_entry alloc file g k v ≡ some changed = rw (nothing, add_entry) at h in
          rw (append_entry-entries g k v [] [] alloc file changed same)
            (All-append IsEntry file.entries _ all (new, tt))
      | inr (entries, found) ↦
          rw
            (set_entries g k v [] [] file changed entries (can_copy alloc v)
              (rw (found, add_entry) at h))
            (replace_value-IsEntry g k v file.entries entries all found)
    ]

module _ (alloc : ℕ → Bool) (lines : List Bytes) (stream_error : Bool)
    (later : (file : ConfigFile) (group : Bytes) (number : ℕ)
      → All IsEntry file.entries
      → IsSection group
      → ParsesInto (read_lines alloc file group number lines stream_error))
    (file : ConfigFile) (group : Bytes) (number : ℕ) (all : All IsEntry file.entries)
    (named : IsSection group) where
  added-ParsesInto :
      (key value : Bytes) (added : Option ConfigFile)
      → add_entry alloc file group key value ≡ added
      → 0 < length group
      → 0 < length key
      → ParsesInto (elim added [
        | none ↦ failed out_of_memory
        | some changed ↦ read_lines alloc changed group (number + 1) lines stream_error
      ])
  unfolding ParsesInto
  added-ParsesInto key value none e some_group some_key = tt
  added-ParsesInto key value (some changed) e some_group some_key =
      later changed group (number + 1)
        (add_entry-IsEntry alloc file changed group key value all
          (record { named = some_group; group_fits = named; keyed = some_key }) e)
        named

  line-ParsesInto :
      (line : Line)
      → IsLine line
      → ParsesInto (elim line [
        | skipped ↦ read_lines alloc file group (number + 1) lines stream_error
        | bad_section ↦ failed (invalid_section (number + 1))
        | no_separator ↦ failed (expected_key_value (number + 1))
        | section name ↦ read_lines alloc file name (number + 1) lines stream_error
        | assignment key value ↦
            if length group == 0 || length key == 0
            then failed (key_outside_section (number + 1))
            else elim (add_entry alloc file group key value) [
              | none ↦ failed out_of_memory
              | some changed ↦ read_lines alloc changed group (number + 1) lines stream_error
            ]
      ])
  unfolding ParsesInto IsLine
  line-ParsesInto skipped h = later file group (number + 1) all named
  line-ParsesInto bad_section h = tt
  line-ParsesInto no_separator h = tt
  line-ParsesInto (section name) h = later file name (number + 1) all h
  line-ParsesInto (assignment key value) h =
      elim (Bool-cases (length group == 0 || length key == 0)) [
        | inl outside ↦ rw outside tt
        | inr inside ↦ rw inside (
            added-ParsesInto key value (add_entry alloc file group key value) refl (ground arith)
              (ground arith))
      ]

read_lines-ParsesInto :
    (alloc : ℕ → Bool) (lines : List Bytes) (stream_error : Bool) (file : ConfigFile)
    (group : Bytes) (number : ℕ)
    → All IsEntry file.entries
    → IsSection group
    → ParsesInto (read_lines alloc file group number lines stream_error)
unfolding read_lines ParsesInto
read_lines-ParsesInto alloc [] true file group number all named = tt
read_lines-ParsesInto alloc [] false file group number all named = all
read_lines-ParsesInto alloc (line ∷ lines) stream_error file group number all named =
    line-ParsesInto alloc lines stream_error (read_lines-ParsesInto alloc lines stream_error) file
      group number all named (line_of (trim (c_text line))) (line_of-IsLine (trim (c_text line)))

parsed-IsEntry :
    (result : ParseResult) (file : ConfigFile)
    → result ≡ parsed file
    → ParsesInto result
    → All IsEntry file.entries
unfolding ParsesInto
parsed-IsEntry (parsed other) file e all =
    let same : other ≡ file = cc in subst (λ f. All IsEntry f.entries) same all
parsed-IsEntry (failed error) file e all = cc

if-ParsesInto :
    (b : Bool) (r : ParseResult) → ParsesInto r → ParsesInto (if b then r else failed out_of_memory)
unfolding ParsesInto
if-ParsesInto true r h = h
if-ParsesInto false r h = tt

-- Whatever the lines are, each entry of a file that `cubicle_config_file_read` accepts stands in a
-- section with a name of 1 to 255 bytes and has a key that is not empty.
pub config_file_read-IsEntry :
    (alloc : ℕ → Bool) (lines : List Bytes) (stream_error : Bool) (file : ConfigFile)
    → config_file_read alloc lines stream_error ≡ parsed file
    → All IsEntry file.entries
unfolding config_file_read
config_file_read-IsEntry alloc lines stream_error file e =
    parsed-IsEntry (config_file_read alloc lines stream_error) file e (
      if-ParsesInto (alloc 24) _ (
        read_lines-ParsesInto alloc lines stream_error (record { entries = []; capacity = 0 }) [] 0
          tt (omega arith)))
