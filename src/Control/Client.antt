-- ===== src/Control/Client.antt =====
-- src/controller/internal.h and the parts of control.c that open, close and sort out clients.
use cubicle.Base.{
  some, none, Bytes, replicate, ◌==◌, ◌++◌, if◌then◌else◌, size_sub, true, ℕ, ◌||◌, [], Option, ◌*◌,
  ◌∷◌, not, leb, List, false, Bool,
}

pub data Kind : Type 0 where
  empty reading responding : Kind
  attached_stdout attached_stderr attaching_stdin attached_stdin : Kind

pub data Stream : Type 0 where
  stdout stderr stdin : Stream

-- What the functions here append to the controller's event log, oldest first.
pub data Event : Type 0 where
  client_attached client_detached : Stream → Event

abbrev pub Log : Type 0
Log = List Event

-- `control_client_t`: `request` is `request[0 .. request_length]`, `response` is
-- `response[0 .. response_length]`, and `fd` is `none` for -1.
pub record Client : Type 0 where
  pub fd : Option ℕ
  pub kind : Kind
  pub request : Bytes
  pub framed_request : Bool
  pub framed_length : ℕ
  pub response : Bytes
  pub response_capacity : ℕ
  pub response_offset : ℕ
  pub close_after_response : Bool
  pub last_activity : ℕ

abbrev pub request_max : ℕ
request_max = 8192

abbrev pub line_request_max : ℕ
line_request_max = 256

abbrev pub response_max : ℕ
response_max = 4 * 1024 * 1024

abbrev pub max_control_clients : ℕ
max_control_clients = 32

-- The slot that `initialize_control_clients` and `close_control_client` leave.
abbrev pub empty_client : Client
empty_client = record {
  fd = none;
  kind = empty;
  request = [];
  framed_request = false;
  framed_length = 0;
  response = [];
  response_capacity = 0;
  response_offset = 0;
  close_after_response = false;
  last_activity = 0;
}

unfoldable pub initialize_control_clients : List Client
initialize_control_clients = replicate max_control_clients empty_client

-- What closing a connection of this kind is logged as.
unfoldable pub detach_events : Kind → Log
detach_events attached_stdout = client_detached stdout ∷ []
detach_events attached_stderr = client_detached stderr ∷ []
detach_events attached_stdin = client_detached stdin ∷ []
detach_events _ = []

-- The event log is only appended to; that an append could fail changes nothing here.
unfoldable pub close_control_client : Client → Log → Client × Log
close_control_client client log =
    (empty_client, elim client.fd [ none ↦ log | some fd ↦ log ++ detach_events client.kind ])

unfoldable pub close_all_control_clients : List Client → Log → List Client × Log
unfolding close_control_client
close_all_control_clients [] log = ([], log)
close_all_control_clients (client ∷ clients) log =
    let (closed, log') = close_control_client client log in
    let (rest, log'') = close_all_control_clients clients log' in (closed ∷ rest, log'')

unfoldable pub is_attached : Kind → Bool
is_attached attached_stdout = true
is_attached attached_stderr = true
is_attached attached_stdin = true
is_attached _ = false

unfoldable pub is_empty : Kind → Bool
is_empty empty = true
is_empty _ = false

-- `==` on the enumeration.
unfoldable pub same_kind : Kind → Kind → Bool
same_kind empty empty = true
same_kind reading reading = true
same_kind responding responding = true
same_kind attached_stdout attached_stdout = true
same_kind attached_stderr attached_stderr = true
same_kind attaching_stdin attaching_stdin = true
same_kind attached_stdin attached_stdin = true
same_kind _ _ = false

abbrev pub idle_timeout : ℕ
idle_timeout = 120_000

-- The test of `reap_idle_control_clients`, on a clock of 64 bits.
unfoldable pub is_idle : ℕ → Client → Bool
unfolding is_attached is_empty
is_idle now client = not (
    is_empty client.kind
    || (is_attached client.kind
        || (client.last_activity == 0 || leb (size_sub now client.last_activity) idle_timeout)))

unfoldable pub reap_loop : ℕ → List Client → Log → List Client × Log
reap_loop now [] log = ([], log)
reap_loop now (client ∷ clients) log =
    let (kept, log') =
      if is_idle now client then close_control_client client log else (client, log) in
    let (rest, log'') = reap_loop now clients log' in (kept ∷ rest, log'')

-- `now` is 0 where the clock could not be read.
unfoldable pub reap_idle_control_clients : ℕ → List Client → Log → List Client × Log
unfolding reap_loop
reap_idle_control_clients now clients log =
    if now == 0 then (clients, log) else reap_loop now clients log
