-- ===== src/Config/Tests.antt =====
-- The configuration reader on a small file.
use cubicle.Config.Values.{parse_desk_debug, validate_host_port_uri, parse_controller_debug}
use cubicle.Config.KeyBounds.{IsKeyName, parse_desk_key_name-IsKeyName}
use cubicle.Config.KeyParser.{KeyName, parse_desk_key_name}
use cubicle.Config.Distinct.{IsDistinct, add_desk_key_binding-IsDistinct}
use cubicle.Config.Bindings.{
  Binding, add_desk_key_binding, binding_max, validate_desk_key_conflicts,
}
use cubicle.Config.Lookup.{add_entry-get_string}
use cubicle.Config.Entries.{IsEntry, config_file_read-IsEntry}
use cubicle.Base.{
  refl, ◌∷◌, false, List, Bytes, Bool, [], some, codes, true, ◌&&◌, All, ◌≡◌, ℕ, if◌then◌else◌,
  none, length, ◌≤◌,
}
use cubicle.Config.File.{
  ConfigFile, add_entry, replace_value, get_string, keep_entry, same_text, matches, trim,
  trim_front, trim_back, split_at, append_entry,
}
use cubicle.Config.Parse.{
  parsed, failed, config_file_read, c_text, assignment_line, key_outside_section, section_line,
}

abbrev given : ℕ → Bool
given size = true

-- "[a]", "k = 1", a comment and "k=2".
abbrev small_file : List Bytes
small_file = codes "[a]\n" ∷ codes " k = 1\n" ∷ codes "# k\n" ∷ codes "k=2\n" ∷ []

abbrev small_entries : ConfigFile
small_entries = record {
  entries = record { group = codes "a"; key = codes "k"; value = codes "2" } ∷ [];
  capacity = 16;
}

read_small_file : config_file_read given small_file false ≡ parsed small_entries
unfolding config_file_read c_text trim trim_front trim_back split_at replace_value keep_entry
    append_entry add_entry matches same_text section_line assignment_line
read_small_file = refl

config_file_read-IsEntry_example : All IsEntry small_entries.entries
config_file_read-IsEntry_example =
    config_file_read-IsEntry given small_file false small_entries read_small_file

read_no_section : config_file_read given (codes "k=1\n" ∷ []) false ≡ failed (key_outside_section 1)
unfolding config_file_read c_text trim trim_front trim_back split_at assignment_line
read_no_section = refl

abbrev changed_entries : ConfigFile
changed_entries = record {
  entries = record { group = codes "a"; key = codes "k"; value = codes "3" } ∷ [];
  capacity = 16;
}

change_small :
    add_entry given small_entries (codes "a") (codes "k") (codes "3") ≡ some changed_entries
unfolding add_entry replace_value keep_entry matches same_text
change_small = refl

add_entry-get_string_example : get_string changed_entries.entries (codes "a") (codes "k") ≡ (
    if same_text (codes "a") (codes "a") && same_text (codes "k") (codes "k")
    then some (codes "3")
    else get_string small_entries.entries (codes "a") (codes "k"))
add_entry-get_string_example =
    add_entry-get_string given small_entries changed_entries (codes "a") (codes "k") (codes "3")
      (codes "a") (codes "k") change_small

-- `Prefix-M-S-F5` in other letters.
abbrev shifted_key : KeyName
shifted_key = record {
  uses_prefix = true;
  key = 27;
  sequence = 27 ∷ codes "[15;4~";
  normalized = codes "Prefix-M-S-f5";
}

parse_shifted : parse_desk_key_name (codes "prefix-meta-shift-f5") ≡ some shifted_key
unfolding parse_desk_key_name
parse_shifted = refl

parse_desk_key_name-IsKeyName_example : IsKeyName shifted_key
parse_desk_key_name-IsKeyName_example =
    parse_desk_key_name-IsKeyName (codes "prefix-meta-shift-f5") shifted_key parse_shifted

-- A normal name that is refused when it is read again.
parse_meta_control :
    parse_desk_key_name (codes "M-C-a")
    ≡ some (record {
      uses_prefix = false;
      key = 27;
      sequence = 27 ∷ 1 ∷ [];
      normalized = codes "C-M-a";
    })
unfolding parse_desk_key_name
parse_meta_control = refl

parse_normalized : parse_desk_key_name (codes "C-M-a") ≡ none
unfolding parse_desk_key_name
parse_normalized = refl

abbrev built_in : Binding
built_in = record {
  uses_prefix = true;
  key = b'q';
  sequence = codes "q";
  key_name = codes "Prefix-q";
  command = codes "quit";
  unbind = false;
  builtin = true;
}

abbrev replaced : Binding
replaced = record built_in { command = codes "menu.open"; builtin = false }

add_replaces :
    add_desk_key_binding (built_in ∷ []) (codes "Prefix-q") (codes "menu.open") false
    ≡ some (replaced ∷ [])
unfolding add_desk_key_binding same_text
add_replaces = refl

add_desk_key_binding-IsDistinct_example :
    IsDistinct (replaced ∷ [])
    × (length (replaced ∷ []) ≤ binding_max)
    × (validate_desk_key_conflicts (replaced ∷ []) ≡ true)
add_desk_key_binding-IsDistinct_example =
    add_desk_key_binding-IsDistinct (built_in ∷ []) (replaced ∷ []) (codes "Prefix-q")
      (codes "menu.open") false (tt, tt) add_replaces

desk_debug_list :
    parse_desk_debug (codes "library, terminal")
    ≡ some (record { desk_library = true; desk_terminal = true })
unfolding parse_desk_debug same_text
desk_debug_list = refl

controller_debug_blank : parse_controller_debug (codes "input, library") ≡ none
unfolding parse_controller_debug same_text
controller_debug_blank = refl

bracketed_host : validate_host_port_uri (codes "tls://[::1]:7000") (codes "tls://") ≡ true
unfolding validate_host_port_uri
bracketed_host = refl

host_without_port : validate_host_port_uri (codes "tcp://host:") (codes "tcp://") ≡ false
unfolding validate_host_port_uri
host_without_port = refl
