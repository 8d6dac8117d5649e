-- ===== src/Control/Flush.antt =====
-- Writing a queued response to its socket, and what becomes of the client after it.
use cubicle.Base.{
  length, ℕ, not, Bool, ◌+◌, List, false, leb, [], ◌∷◌, ◌&&◌, take, Bytes, if◌then◌else◌, ◌++◌,
  drop,
}
use cubicle.Control.Client.{
  Client, Log, client_attached, stdin, close_control_client, responding, reading, attaching_stdin,
  attached_stdin, Kind,
}

-- What one call of `write` gave: `room n` is a socket that takes up to `n` bytes, so that the call
-- returns the smaller of `n` and the length asked for.
pub data WriteResult : Type 0 where
  room : ℕ → WriteResult
  write_interrupted write_would_block write_failed : WriteResult

-- `client->response + client->response_offset`, up to the response's length.
abbrev pub unsent : Client → Bytes
unsent client = drop client.response_offset client.response

abbrev pub is_drained : Client → Bool
is_drained client = leb (length client.response) client.response_offset

-- A framed client waits for its next request.
abbrev pub next_request : ℕ → Client → Client
next_request now client = record client {
  kind = reading;
  request = [];
  framed_length = 0;
  response = [];
  response_offset = 0;
  close_after_response = false;
  last_activity = now;
}

-- The part after the loop, for each kind of client; `now` is the clock.
unfoldable pub after_drain : ℕ → Kind → Client → Log → Client × Log
unfolding close_control_client
after_drain now responding client log =
    if client.framed_request && not client.close_after_response
    then (next_request now client, log)
    else close_control_client client log
after_drain now attaching_stdin client log =
    (record client { kind = attached_stdin }, log ++ client_attached stdin ∷ [])
after_drain now _ client log = (client, log)

abbrev pub drained : Client → Client
drained client = record client { response = []; response_offset = 0 }

abbrev pub advanced : ℕ → Client → Client
advanced n client = record client {
  response_offset = client.response_offset + length (take n (unsent client));
}

-- `flush_control_client_response`, on the results that the calls of `write` give in turn; the last
-- component is the bytes the socket took. With no result left nothing is written any more.
unfoldable pub flush_control_client_response :
    ℕ → List WriteResult → Client → Log → Client × Log × Bytes
unfolding after_drain
flush_control_client_response now [] client log =
    if is_drained client
    then (let (left, log') = after_drain now client.kind (drained client) log in (left, log', []))
    else (client, log, [])
flush_control_client_response now (room n ∷ results) client log =
    let (left, log', sent) = flush_control_client_response now results (advanced n client) log in
    if is_drained client
    then (let (left, log') = after_drain now client.kind (drained client) log in (left, log', []))
    else (left, log', take n (unsent client) ++ sent)
flush_control_client_response now (write_interrupted ∷ results) client log =
    let again = flush_control_client_response now results client log in
    if is_drained client
    then (let (left, log') = after_drain now client.kind (drained client) log in (left, log', []))
    else again
flush_control_client_response now (write_would_block ∷ results) client log =
    if is_drained client
    then (let (left, log') = after_drain now client.kind (drained client) log in (left, log', []))
    else (client, log, [])
flush_control_client_response now (write_failed ∷ results) client log =
    if is_drained client
    then (let (left, log') = after_drain now client.kind (drained client) log in (left, log', []))
    else (let (closed, log') = close_control_client client log in (closed, log', []))
