-- ===== src/Control/Accept.antt =====
-- Taking new connections into free slots of the client table.
use cubicle.Base.{if◌then◌else◌, some, [], List, ◌∷◌, true, none, Option, ℕ, false, Bool, not}
use cubicle.Control.Client.{Client, reading, is_empty}

-- What one call of `accept` gave; of a connection also whether `set_cloexec` and `set_nonblocking`
-- succeed on it, and the clock.
pub record Connection : Type 0 where
  pub fd : ℕ
  pub cloexec : Bool
  pub nonblocking : Bool
  pub now : ℕ

pub data AcceptResult : Type 0 where
  connection : Connection → AcceptResult
  accept_interrupted accept_would_block accept_failed : AcceptResult

-- The fields that the function sets; the others stay as the slot has them.
abbrev pub accepted : Connection → Client → Client
accepted c slot = record slot {
  fd = some c.fd;
  kind = reading;
  request = [];
  framed_request = false;
  framed_length = 0;
  response = [];
  response_offset = 0;
  close_after_response = false;
  last_activity = c.now;
}

-- The first empty slot is filled; `none` where there is none.
unfoldable pub fill_slot : Connection → List Client → Option (List Client)
fill_slot c [] = none
fill_slot c (client ∷ clients) =
    if is_empty client.kind
    then some (accepted c client ∷ clients)
    else elim (fill_slot c clients) [ none ↦ none | some filled ↦ some (client ∷ filled) ]

-- The table, the descriptors that were closed at once, and whether the call returned 0.
pub record Accepted : Type 0 where
  pub clients : List Client
  pub refused : List ℕ
  pub succeeded : Bool

abbrev pub refuse : ℕ → Accepted → Accepted
refuse fd rest = record rest { refused = fd ∷ rest.refused }

unfoldable pub accept_control_clients : List AcceptResult → List Client → Accepted
unfolding fill_slot
accept_control_clients [] clients = record { clients = clients; refused = []; succeeded = true }
accept_control_clients (accept_interrupted ∷ results) clients =
    accept_control_clients results clients
accept_control_clients (accept_would_block ∷ results) clients = record {
  clients = clients;
  refused = [];
  succeeded = true;
}
accept_control_clients (accept_failed ∷ results) clients = record {
  clients = clients;
  refused = [];
  succeeded = false;
}
accept_control_clients (connection c ∷ results) clients =
    let unchanged = accept_control_clients results clients in
    if not c.cloexec
    then record { clients = clients; refused = c.fd ∷ []; succeeded = false }
    else elim (fill_slot c clients) [
      | none ↦ refuse c.fd unchanged
      | some filled ↦
          if c.nonblocking then accept_control_clients results filled else refuse c.fd unchanged
    ]
