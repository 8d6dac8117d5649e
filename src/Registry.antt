-- ===== src/Registry.antt =====
-- src/manager/registry.c and include/cubicle/manager_registry.h: the lines of the manager's registry of
-- workspaces and processes.
use cubicle.Base.{
  Bool, codes, ◌||◌, take, ◌==◌, ◌-◌, some, false, ℕ, if◌then◌else◌, ◌∷◌, Option, Bytes, none, [],
}
use cubicle.Config.File.{same_text}

-- `snprintf` into an array of `size` bytes.
abbrev store : ℕ → Bytes → Bytes
store size text = take (size - 1) text

abbrev id_size : ℕ
id_size = 33

abbrev path_max : ℕ
path_max = 4096

abbrev argv_json_max : ℕ
argv_json_max = 16384

-- `strpbrk(field, "\t\n")`: the bytes before the first separator, and those behind it, if there is one.
unfoldable pub field_end : Bytes → Bytes × Option Bytes
field_end [] = ([], none)
field_end (c ∷ text) =
    let (field, rest) = field_end text in
    if c == 9 || c == 10 then ([], some text) else (c ∷ field, rest)

-- The field at the cursor and the cursor behind it; `none` is a null pointer.
unfoldable pub next_field : Option Bytes → Option Bytes × Option Bytes
unfolding field_end
next_field none = (none, none)
next_field (some cursor) = let (field, rest) = field_end cursor in (some field, rest)

pub record ProcessRecord : Type 0 where
  pub process_id : Bytes
  pub workspace_id : Bytes
  pub friendly_name : Bytes
  pub mode : Bytes
  pub state : Bytes
  pub controller_id : Bytes
  pub control_socket : Bytes
  pub cwd : Bytes
  pub argv_json : Bytes
  pub saved : Bool
  pub restart : Bool
  pub stdin_policy : Bytes
  pub workspace_name : Bytes
  pub workspace_directory : Bytes

abbrev or_text : Bytes → Option Bytes → Bytes
or_text text field = elim field [ none ↦ text | some given ↦ given ]

abbrev is_one : Option Bytes → Bool
is_one field = elim field [ none ↦ false | some given ↦ same_text given (49 ∷ []) ]

-- A required field that is missing ends the parser with -1.
infixl 5 ◌>>=◌
abbrev ◌>>=◌ {κ ℓ} :
    {Field : Type κ} {Rest : Type ℓ} → Option Field → (Field → Option Rest) → Option Rest
none >>= continue = none
some field >>= continue = continue field

-- `cubicle_parse_process_record`: the first seven fields must be there.
unfoldable pub parse_process_record : Bytes → Option ProcessRecord
unfolding next_field
parse_process_record line = do
  let (process_id, after_process) = next_field (some line)
  let (workspace_id, after_workspace) = next_field after_process
  let (friendly_name, after_name) = next_field after_workspace
  let (mode, after_mode) = next_field after_name
  let (state, after_state) = next_field after_mode
  let (controller_id, after_controller) = next_field after_state
  let (control_socket, after_socket) = next_field after_controller
  let (cwd, after_cwd) = next_field after_socket
  let (saved, after_saved) = next_field after_cwd
  let (argv_json, after_argv) = next_field after_saved
  let (restart, after_restart) = next_field after_argv
  let (stdin_policy, after_policy) = next_field after_restart
  let (workspace_name, after_workspace_name) = next_field after_policy
  let (workspace_directory, _) = next_field after_workspace_name
  required_process_id ← process_id
  required_workspace_id ← workspace_id
  required_name ← friendly_name
  required_mode ← mode
  required_state ← state
  required_controller ← controller_id
  required_socket ← control_socket
  some (record {
    process_id = store id_size required_process_id;
    workspace_id = store id_size required_workspace_id;
    friendly_name = store 128 required_name;
    mode = store 32 required_mode;
    state = store 32 required_state;
    controller_id = store id_size required_controller;
    control_socket = store path_max required_socket;
    cwd = store path_max (or_text [] cwd);
    argv_json = store argv_json_max (or_text [] argv_json);
    saved = is_one saved;
    restart = is_one restart;
    stdin_policy = store 32 (or_text (codes "open") stdin_policy);
    workspace_name = store 128 (or_text [] workspace_name);
    workspace_directory = store path_max (or_text [] workspace_directory);
  })
