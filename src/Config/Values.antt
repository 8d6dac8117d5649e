-- ===== src/Config/Values.antt =====
-- src/common/config.c: the parsers of single values, and the checks on a whole configuration. `none` and
-- `false` are -1; the texts of the errors are left out.
use cubicle.Config.File.{same_text}
use cubicle.Base.Result.{Result, ok, err, enametoolong, einval}
use cubicle.Base.{
  ℕ, Bytes, Option, none, some, true, false, Bool, not, if◌then◌else◌, ◌∷◌, ◌==◌, ◌++◌, ltb, List,
  [], length, leb, ◌&&◌, codes, ◌||◌,
}
use cubicle.Config.KeyParser.{after_prefix}
use cubicle.Config.Bindings.{Binding, validate_desk_key_conflicts, skip_blanks, trim_end, is_one_of}

pub data Launch : Type 0 where
  foreground background : Launch

unfoldable pub parse_launch : Bytes → Option Launch
unfolding same_text
parse_launch value =
    if same_text value (codes "foreground")
    then some foreground
    else if same_text value (codes "background")
    then some background
    else none

pub data ProcessMode : Type 0 where
  stream_mode tty_mode captured_stderr_mode : ProcessMode

unfoldable pub parse_mode : Bytes → Option ProcessMode
unfolding same_text
parse_mode value =
    if same_text value (codes "stream")
    then some stream_mode
    else if same_text value (codes "tty")
    then some tty_mode
    else if same_text value (codes "term")
    then some captured_stderr_mode
    else none

unfoldable pub parse_bool : Bytes → Option Bool
unfolding is_one_of
parse_bool value =
    if is_one_of value (codes "true" ∷ codes "yes" ∷ codes "1" ∷ codes "on" ∷ [])
    then some true
    else if is_one_of value (codes "false" ∷ codes "no" ∷ codes "0" ∷ codes "off" ∷ [])
    then some false
    else none

abbrev pub is_off : Bytes → Bool
unfolding is_one_of
is_off value = is_one_of value (codes "none" ∷ codes "off" ∷ codes "false" ∷ [])

unfoldable pub parse_library_debug : Bytes → Option Bool
unfolding is_off same_text
parse_library_debug value =
    if same_text value (codes "library")
    then some true
    else if is_off value
    then some false
    else none

-- `strtoul` in a base: the number, unless `errno` is set, and what stands behind it; where nothing is a
-- number, that is the text itself.
module _ (strtoul : ℕ → Bytes → Option ℕ × Bytes) where
  -- The number, where it is the whole text.
  abbrev pub whole_number : ℕ → Bytes → Option ℕ
  whole_number base value =
      let (parsed, rest) = strtoul base value in
      if length rest == length value || not (length rest == 0) then none else parsed

  -- The value that is set; an empty text keeps the one that there was.
  unfoldable pub parse_uint_range : Bytes → ℕ → ℕ → ℕ → Option ℕ
  parse_uint_range value previous min_value max_value =
      if length value == 0 then some previous else elim (whole_number 10 value) [
        | none ↦ none
        | some result ↦ if ltb result min_value || ltb max_value result then none else some result
      ]

  unfoldable pub parse_socket_mode : Bytes → ℕ → Option ℕ
  parse_socket_mode value previous =
      if length value == 0 then some previous else elim (whole_number 8 value) [
        | none ↦ none
        | some parsed ↦ if ltb 511 parsed then none else some parsed
      ]

abbrev pub debug_text_max : ℕ
debug_text_max = 128

-- The parts that `strtok_r` gives of a list with commas: none of them is empty. The part that is being
-- read stands in front.
unfoldable pub parts_after : Bytes → Bytes → List Bytes
parts_after part [] = if length part == 0 then [] else part ∷ []
parts_after part (c ∷ text) =
    let further = parts_after (part ++ c ∷ []) text in
    let others = parts_after [] text in
    if c == b',' then (if length part == 0 then others else part ∷ others) else further

pub record DeskDebug : Type 0 where
  pub desk_library : Bool
  pub desk_terminal : Bool

abbrev pub no_desk_debug : DeskDebug
no_desk_debug = record { desk_library = false; desk_terminal = false }

unfoldable pub desk_debug_parts : DeskDebug → List Bytes → Option DeskDebug
unfolding same_text skip_blanks trim_end
desk_debug_parts debug [] = some debug
desk_debug_parts debug (part ∷ parts) =
    let text = trim_end (skip_blanks part) in
    let with_library = desk_debug_parts (record debug { desk_library = true }) parts in
    let with_terminal = desk_debug_parts (record debug { desk_terminal = true }) parts in
    if same_text text (codes "library")
    then with_library
    else if same_text text (codes "terminal")
    then with_terminal
    else none

unfoldable pub parse_desk_debug : Bytes → Option DeskDebug
unfolding is_off parts_after desk_debug_parts
parse_desk_debug value =
    if is_off value
    then some no_desk_debug
    else if leb debug_text_max (length value)
    then none
    else desk_debug_parts no_desk_debug (parts_after [] value)

pub record ControllerDebug : Type 0 where
  pub debug_input : Bool
  pub debug_library : Bool
  pub debug_terminal : Bool

abbrev pub no_controller_debug : ControllerDebug
no_controller_debug = record { debug_input = false; debug_library = false; debug_terminal = false }

-- Unlike those of the desktop, these parts are not trimmed.
unfoldable pub controller_debug_parts : ControllerDebug → List Bytes → Option ControllerDebug
unfolding same_text
controller_debug_parts debug [] = some debug
controller_debug_parts debug (part ∷ parts) =
    let with_input = controller_debug_parts (record debug { debug_input = true }) parts in
    let with_library = controller_debug_parts (record debug { debug_library = true }) parts in
    let with_terminal = controller_debug_parts (record debug { debug_terminal = true }) parts in
    if same_text part (codes "input")
    then with_input
    else if same_text part (codes "library")
    then with_library
    else if same_text part (codes "terminal")
    then with_terminal
    else none

unfoldable pub parse_controller_debug : Bytes → Option ControllerDebug
unfolding is_off parts_after controller_debug_parts
parse_controller_debug value =
    if is_off value
    then some no_controller_debug
    else if leb debug_text_max (length value)
    then none
    else controller_debug_parts no_controller_debug (parts_after [] value)

abbrev pub is_absolute_path : Bytes → Bool
is_absolute_path [] = false
is_absolute_path (c ∷ path) = c == b'/'

-- The path of a socket, for a buffer of the given size.
unfoldable pub unix_uri_path : Bytes → ℕ → Result Bytes
unfolding after_prefix
unix_uri_path uri path_size = elim (after_prefix (codes "unix://") uri) [
  | none ↦ err einval
  | some path ↦
      if not (is_absolute_path path)
      then err einval
      else if leb path_size (length path)
      then err enametoolong
      else ok path
]

-- What stands before the first byte `c`, and behind it.
unfoldable pub split_first : ℕ → Bytes → Option (Bytes × Bytes)
split_first c [] = none
split_first c (d ∷ text) =
    let later = split_first c text in
    if d == c
    then some ([], text)
    else elim later [ none ↦ none | some (front, back) ↦ some (d ∷ front, back) ]

-- What stands before the last byte `c`, and behind it.
unfoldable pub split_last : ℕ → Bytes → Option (Bytes × Bytes)
split_last c [] = none
split_last c (d ∷ text) = elim (split_last c text) [
  | some (front, back) ↦ some (d ∷ front, back)
  | none ↦ if d == c then some ([], text) else none
]

-- The text of the port of `host:port` or `[host]:port`, with a host that is not empty.
unfoldable pub port_of : Bytes → Option Bytes
unfolding split_first split_last
port_of [] = none
port_of (c ∷ authority) =
    if c == b'['
    then elim (split_first b']' authority) [
      | none ↦ none
      | some (host, []) ↦ none
      | some (host, d ∷ port) ↦ if d == b':' && not (length host == 0) then some port else none
    ]
    else elim (split_last b':' (c ∷ authority)) [
      | none ↦ none
      | some (host, port) ↦ if length host == 0 then none else some port
    ]

unfoldable pub only_digits : Bytes → Bool
only_digits [] = true
only_digits (c ∷ text) =
    let rest = only_digits text in if leb b'0' c && leb c b'9' then rest else false

unfoldable pub validate_host_port_uri : Bytes → Bytes → Bool
unfolding after_prefix port_of only_digits
validate_host_port_uri uri prefix = elim (after_prefix prefix uri) [
  | none ↦ false
  | some authority ↦ elim (port_of authority) [
    | none ↦ false
    | some port ↦ not (length port == 0) && only_digits port
  ]
]

-- `CUBICLE_PATH_MAX` is the size of the buffer for the path.
unfoldable pub validate_endpoint_uri : ℕ → Bytes → Bool
unfolding unix_uri_path validate_host_port_uri
validate_endpoint_uri path_size uri = elim (unix_uri_path uri path_size) [
  | ok path ↦ true
  | err errno ↦
      validate_host_port_uri uri (codes "tcp://") || validate_host_port_uri uri (codes "tls://")
]

-- The fields that `cubicle_config_validate` looks at.
pub record Checked : Type 0 where
  pub bindir : Bytes
  pub libexecdir : Bytes
  pub manager_state_dir : Bytes
  pub manager_runtime_dir : Bytes
  pub manager_log_dir : Bytes
  pub controller_binary : Bytes
  pub manager_listen_uri : Bytes
  pub client_manager_uri : Bytes
  pub desk_key_bindings : List Binding

unfoldable pub config_validate : ℕ → Checked → Bool
unfolding validate_endpoint_uri validate_desk_key_conflicts
config_validate path_size config =
    is_absolute_path config.bindir
    && (is_absolute_path config.libexecdir
        && (is_absolute_path config.manager_state_dir
            && (is_absolute_path config.manager_runtime_dir
                && (is_absolute_path config.manager_log_dir
                    && (is_absolute_path config.controller_binary
                        && (validate_endpoint_uri path_size config.manager_listen_uri
                            && (validate_endpoint_uri path_size config.client_manager_uri
                                && validate_desk_key_conflicts config.desk_key_bindings)))))))
