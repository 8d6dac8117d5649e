-- ===== src/Config/Parse.antt =====
-- `cubicle_config_file_read`: the lines of a file, as `getline` gives them one by one, into entries.
use cubicle.Base.{
  some, ◌+◌, Bytes, if◌then◌else◌, List, Bool, [], ◌==◌, leb, length, ltb, ◌||◌, ◌∷◌, none, ℕ,
}
use cubicle.Config.File.{ConfigFile, trim, split_at, add_entry}

-- The messages of the reader; those about a line come with its number.
pub data ParseError : Type 0 where
  invalid_section expected_key_value key_outside_section : ℕ → ParseError
  out_of_memory read_failed : ParseError

pub data ParseResult : Type 0 where
  parsed : ConfigFile → ParseResult
  failed : ParseError → ParseResult

-- A C string ends at its first 0.
unfoldable pub c_text : Bytes → Bytes
c_text [] = []
c_text (c ∷ text) = let rest = c_text text in if c == 0 then [] else c ∷ rest

-- What one line asks for; `text` is trimmed and not empty.
pub data Line : Type 0 where
  skipped bad_section no_separator : Line
  section : Bytes → Line
  assignment : Bytes → Bytes → Line

abbrev pub group_size : ℕ
group_size = 256

-- `[name]`, behind the bracket.
unfoldable pub section_line : Bytes → Line
section_line text = elim (split_at b']' text) [
  | none ↦ bad_section
  | some (inside, behind) ↦
      let name = trim inside in
      if ltb 0 (length (trim behind)) || (length name == 0 || leb group_size (length name))
      then bad_section
      else section name
]

unfoldable pub assignment_line : Bytes → Line
assignment_line text = elim (split_at b'=' text) [
  | none ↦ no_separator
  | some (key, value) ↦ assignment (trim key) (trim value)
]

unfoldable pub line_of : Bytes → Line
unfolding section_line assignment_line
line_of [] = skipped
line_of (c ∷ text) =
    if c == b'#' || c == b';'
    then skipped
    else if c == b'['
    then section_line text
    else assignment_line (c ∷ text)

module _ (alloc : ℕ → Bool) where
  -- The loop: `group` is the section, empty before the first; `number` counts the lines. The last
  -- argument says whether `ferror` reports an error when the lines end.
  unfoldable pub read_lines : ConfigFile → Bytes → ℕ → List Bytes → Bool → ParseResult
  unfolding line_of
  read_lines file group number [] stream_error =
      if stream_error then failed read_failed else parsed file
  read_lines file group number (line ∷ lines) stream_error = elim (line_of (trim (c_text line))) [
    | skipped ↦ read_lines file group (number + 1) lines stream_error
    | bad_section ↦ failed (invalid_section (number + 1))
    | no_separator ↦ failed (expected_key_value (number + 1))
    | section name ↦ read_lines file name (number + 1) lines stream_error
    | assignment key value ↦
        if length group == 0 || length key == 0
        then failed (key_outside_section (number + 1))
        else elim (add_entry alloc file group key value) [
          | none ↦ failed out_of_memory
          | some changed ↦ read_lines changed group (number + 1) lines stream_error
        ]
  ]

  -- `cubicle_config_file_read` on a file that could be opened; the handle of 24 bytes comes first.
  unfoldable pub config_file_read : List Bytes → Bool → ParseResult
  unfolding read_lines
  config_file_read lines stream_error =
      if alloc 24
      then read_lines (record { entries = []; capacity = 0 }) [] 0 lines stream_error
      else failed out_of_memory
