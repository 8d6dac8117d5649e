-- ===== src/Control/Tests.antt =====
-- Witnesses of the theorems on control clients, on concrete clients and calls.
use cubicle.Control.Calls.{read_calls, heard_all, IsArrival, IsTime, heard}
use cubicle.Auth.{u32_bytes}
use cubicle.Control.Table.{
  Hears, reap_idle_control_clients-Reaps, Reaps, broadcast_attached_output-Hears,
}
use cubicle.Control.Safety.{
  read_control_client_request-IsClient, flush_control_client_response-IsClient,
}
use cubicle.Control.Sending.{
  Finishes, goes_on, Sends, total_room, flush_control_client_response_complete, fails,
  flush_control_client_response-Sends,
}
use cubicle.Control.Writing.{Queued, enqueue_response-Queued}
use cubicle.Control.Valid.{IsClient}
use cubicle.Control.Framing.{IsPart, delivered}
use cubicle.Control.Slots.{Accepts, IsSlot, accept_control_clients-Accepts}
use cubicle.Control.Enqueue.{broadcast_attached_output, enqueue_response}
use cubicle.Control.Delivery.{read_frame, read_control_client_request-delivered}
use cubicle.Base.{
  ◌≡◌, ℕ, ◌∷◌, true, refl, [], Bool, List, some, arith, false, ◌<◌, ◌++◌, get_elem?, length, All,
  ◌≤◌, ◌+◌,
}
use cubicle.Control.Client.{
  Client, Log, empty_client, reading, responding, attached_stdout, reap_idle_control_clients,
  is_empty,
}
use cubicle.Control.Read.{
  received, read_interrupted, ReadResult, read_control_client_request, read_would_block,
}
use cubicle.Control.Flush.{
  room, write_interrupted, WriteResult, unsent, flush_control_client_response,
}
use cubicle.Control.Accept.{
  connection, accept_interrupted, accept_would_block, AcceptResult, accept_control_clients,
}

abbrev given : ℕ → Bool
given n = true

abbrev fresh_client : Client
fresh_client = record empty_client { fd = some 7; kind = reading; last_activity = 5 }

-- Dispatchers that mark the client as answered.
abbrev mark_control : Client → Log → Client × Log
mark_control c log = (record c { kind = responding; close_after_response = true }, log)

abbrev mark_api : Client → Log → Client × Log
mark_api c log = (record c { kind = responding }, log)

abbrev two_frames : List ReadResult
two_frames =
    received 9 (0 ∷ 0 ∷ [])
    ∷ read_interrupted
    ∷ received 9 (0 ∷ 2 ∷ 123 ∷ [])
    ∷ received 9 (125 ∷ 65 ∷ [])
    ∷ []

-- The first bytes of a frame, in two calls at two times.
abbrev frame_calls : List (List ReadResult)
frame_calls =
    (received 3 (0 ∷ 0 ∷ []) ∷ read_would_block ∷ [])
    ∷ (read_interrupted ∷ received 6 (0 ∷ 2 ∷ 123 ∷ []) ∷ read_would_block ∷ [])
    ∷ []

-- The last one, with a byte behind it.
abbrev frame_end : List ReadResult
frame_end = read_interrupted ∷ received 9 (125 ∷ 65 ∷ []) ∷ []

frame_calls-arrived : All (All IsArrival) frame_calls
unfolding IsArrival
frame_calls-arrived = ((tt, (tt, tt)), ((tt, (tt, (tt, tt))), tt))

frame_end-arrived : All IsArrival frame_end
unfolding IsArrival
frame_end-arrived = (tt, (tt, tt))

frame_calls-heard :
    heard_all frame_calls ++ heard frame_end ≡ u32_bytes 2 ++ ((123 ∷ 125 ∷ []) ++ (65 ∷ []))
unfolding heard_all heard
frame_calls-heard = refl

frame_calls-few : length (heard_all frame_calls) < 4 + 2
unfolding heard_all heard
frame_calls-few = omega arith

read_frame_example :
    let (waiting, log) = read_calls given mark_control mark_api frame_calls fresh_client [] in
    (now : ℕ) × IsTime now frame_end
    × (read_control_client_request given mark_control mark_api frame_end waiting log
        ≡ mark_api
            (record fresh_client {
              request = 123 ∷ 125 ∷ [];
              framed_request = true;
              framed_length = 2;
              last_activity = now;
            })
            [])
read_frame_example =
    read_frame given mark_control mark_api frame_calls frame_end fresh_client [] (123 ∷ 125 ∷ [])
      (65 ∷ []) frame_calls-arrived frame_end-arrived frame_calls-heard frame_calls-few refl refl
      (omega arith) (omega arith)

-- "ok", a carriage return and a line feed, in two pieces.
abbrev two_pieces : List ReadResult
two_pieces = received 9 (111 ∷ 107 ∷ 13 ∷ []) ∷ received 9 (10 ∷ []) ∷ []

two_pieces-parts : All (IsPart 9) two_pieces
unfolding IsPart
two_pieces-parts = (refl, (refl, tt))

-- The same text, and a call that would block between the two ends.
abbrev line_calls : List (List ReadResult)
line_calls = (received 8 (111 ∷ 107 ∷ 13 ∷ []) ∷ read_would_block ∷ []) ∷ []

abbrev line_feed : List ReadResult
line_feed = received 9 (10 ∷ []) ∷ []

abbrev one_piece : List ReadResult
one_piece = read_interrupted ∷ received 9 (111 ∷ 107 ∷ 13 ∷ 10 ∷ []) ∷ []

one_piece-parts : All (IsPart 9) one_piece
unfolding IsPart
one_piece-parts = (tt, (refl, tt))

pieces-same : delivered two_pieces ≡ delivered one_piece
unfolding delivered
pieces-same = refl

two_pieces-some : 0 < length (delivered two_pieces)
unfolding delivered
two_pieces-some = omega arith

read_control_client_request-delivered_example :
    read_control_client_request given mark_control mark_api two_pieces fresh_client []
    ≡ read_control_client_request given mark_control mark_api one_piece fresh_client []
read_control_client_request-delivered_example =
    read_control_client_request-delivered given mark_control mark_api two_pieces one_piece 9
      fresh_client [] two_pieces-parts one_piece-parts pieces-same two_pieces-some

fresh_client-IsClient : IsClient fresh_client
fresh_client-IsClient = record {
  request_fits = omega arith;
  offset_fits = omega arith;
  response_fits = omega arith;
  capacity_fits = omega arith;
  frame_fits = λ e. omega arith;
}

mark_control-IsClient : (c : Client) (log : Log) → IsClient c → IsClient (mark_control c log).0
mark_control-IsClient c log v = record {
  request_fits = v.request_fits;
  offset_fits = v.offset_fits;
  response_fits = v.response_fits;
  capacity_fits = v.capacity_fits;
  frame_fits = λ e. cc;
}

mark_api-IsClient : (c : Client) (log : Log) → IsClient c → IsClient (mark_api c log).0
mark_api-IsClient c log v = record {
  request_fits = v.request_fits;
  offset_fits = v.offset_fits;
  response_fits = v.response_fits;
  capacity_fits = v.capacity_fits;
  frame_fits = λ e. cc;
}

read_control_client_request-IsClient_example :
    IsClient (read_control_client_request given mark_control mark_api two_frames fresh_client []).0
read_control_client_request-IsClient_example =
    read_control_client_request-IsClient given mark_control mark_api mark_control-IsClient
      mark_api-IsClient two_frames fresh_client [] fresh_client-IsClient

-- A client with three bytes to send, one of them sent.
abbrev sending : Client
sending = record fresh_client {
  kind = responding;
  framed_request = true;
  response = 1 ∷ 2 ∷ 3 ∷ [];
  response_capacity = 4096;
  response_offset = 1;
}

sending-IsClient : IsClient sending
sending-IsClient = record {
  request_fits = omega arith;
  offset_fits = omega arith;
  response_fits = omega arith;
  capacity_fits = omega arith;
  frame_fits = λ e. omega arith;
}

enqueue_response-Queued_example :
    Queued given sending (4 ∷ 5 ∷ []) (enqueue_response given sending (4 ∷ 5 ∷ []))
enqueue_response-Queued_example =
    enqueue_response-Queued given sending (4 ∷ 5 ∷ []) sending-IsClient

abbrev writes : List WriteResult
writes = room 1 ∷ write_interrupted ∷ room 6 ∷ []

flush_control_client_response-Sends_example :
    Sends (unsent sending) (fails writes) (flush_control_client_response 9 writes sending [])
flush_control_client_response-Sends_example =
    flush_control_client_response-Sends 9 writes sending []

writes-goes_on : goes_on writes ≡ true
unfolding goes_on
writes-goes_on = refl

writes-enough : length (unsent sending) ≤ total_room writes
unfolding total_room
writes-enough = omega arith

flush_control_client_response_complete_example :
    let (left, log, sent) = flush_control_client_response 9 writes sending [] in
    Finishes 9 responding sending [] (left, log) × (sent ≡ 2 ∷ 3 ∷ [])
flush_control_client_response_complete_example =
    flush_control_client_response_complete 9 writes sending [] writes-goes_on writes-enough

flush_control_client_response-IsClient_example :
    IsClient (flush_control_client_response 9 writes sending []).0
flush_control_client_response-IsClient_example =
    flush_control_client_response-IsClient 9 writes sending [] sending-IsClient

abbrev idle_sender : Client
idle_sender = record sending { last_activity = 9 }

-- A table with one busy slot and one empty one.
abbrev table : List Client
table = sending ∷ empty_client ∷ []

is_empty_responding : is_empty responding ≡ false
unfolding is_empty
is_empty_responding = refl

table-slots : All IsSlot table
table-slots = ((λ e. cc (is_empty_responding, e)), ((λ e. refl), tt))

abbrev arriving : List AcceptResult
arriving =
    connection (record { fd = 8; cloexec = true; nonblocking = true; now = 3 })
    ∷ accept_interrupted
    ∷ connection (record { fd = 9; cloexec = true; nonblocking = true; now = 4 })
    ∷ accept_would_block
    ∷ []

accept_control_clients-Accepts_example :
    Accepts arriving table (accept_control_clients arriving table)
accept_control_clients-Accepts_example = accept_control_clients-Accepts arriving table table-slots

reap_idle_control_clients-Reaps_example :
    let (kept, log) = reap_idle_control_clients 200_000 (idle_sender ∷ table) [] in
    (left : Client) × (get_elem? kept 0 ≡ some left) × Reaps 200_000 idle_sender left × (log ≡ [])
reap_idle_control_clients-Reaps_example =
    reap_idle_control_clients-Reaps 200_000 (idle_sender ∷ table) [] 0 idle_sender refl
      (omega arith) (omega arith)

abbrev listener : Client
listener = record fresh_client { kind = attached_stdout }

listener-IsClient : IsClient listener
listener-IsClient = record {
  request_fits = omega arith;
  offset_fits = omega arith;
  response_fits = omega arith;
  capacity_fits = omega arith;
  frame_fits = λ e. omega arith;
}

broadcast_attached_output-Hears_example :
    (left : Client) × (get_elem?
        (broadcast_attached_output given true (4 ∷ 5 ∷ []) (sending ∷ listener ∷ []) []).0
        1
      ≡ some left)
    × Hears given attached_stdout (4 ∷ 5 ∷ []) listener left
broadcast_attached_output-Hears_example =
    broadcast_attached_output-Hears given true (4 ∷ 5 ∷ []) (sending ∷ listener ∷ []) [] 1 listener
      (sending-IsClient, (listener-IsClient, tt)) refl
