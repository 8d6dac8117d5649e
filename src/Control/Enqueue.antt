-- ===== src/Control/Enqueue.antt =====
-- Queueing responses. A result is the client, changed also where the call fails, and whether the
-- call returned 0. `alloc` says whether `realloc` gives a block of that size.
use cubicle.Auth.{u32_max, u32_bytes}
use cubicle.Control.Client.{
  response_max, Kind, Client, responding, Log, same_kind, attached_stdout, attached_stderr,
  close_control_client,
}
use cubicle.Base.{
  List, suc, false, Bytes, ◌*◌, [], length, leb, true, ℕ, ◌+◌, ◌-◌, ◌==◌, Bool, zero, codes,
  if◌then◌else◌, ◌++◌, ◌∷◌, ◌||◌, ltb, ◌/◌,
}

-- `while (capacity < required)`; the response buffer starts at 4096 bytes.
unfoldable pub grow_response : ℕ → ℕ → ℕ → ℕ
grow_response zero required capacity = capacity
grow_response (suc fuel) required capacity =
    let rest =
      grow_response fuel required
        (if ltb (response_max / 2) capacity then response_max else 2 * capacity) in
    if ltb capacity required then rest else capacity

-- From 4096 bytes ten doublings reach the limit; any smaller block takes at most 22.
abbrev pub grow_fuel : ℕ
grow_fuel = 24

abbrev pub put_response : Client → Bytes → ℕ → Client
put_response client buffer capacity = record client {
  response = client.response ++ buffer;
  response_capacity = capacity;
}

module _ (alloc : ℕ → Bool) where
  unfoldable pub enqueue_response : Client → Bytes → Client × Bool
  enqueue_response client buffer =
      if ltb response_max (length buffer)
        || ltb (response_max - length buffer) (length client.response)
      then (client, false)
      else (let required = length client.response + length buffer in
          let capacity =
            grow_response grow_fuel required
              (if client.response_capacity == 0 then 4096 else client.response_capacity) in
          if ltb client.response_capacity required
          then (if alloc capacity
              then (put_response client buffer capacity, true)
              else (client, false))
          else (put_response client buffer client.response_capacity, true))

  -- `"error %s\n"`, in a buffer of 256 bytes.
  unfoldable pub enqueue_error_response : Client → Bytes → Client × Bool
  enqueue_error_response client message =
      let response = codes "error " ++ (message ++ 10 ∷ []) in
      if leb 256 (length response)
      then (client, false)
      else enqueue_response (record client { kind = responding; close_after_response = true })
          response

  -- A frame: the length in network order, then the text.
  unfoldable pub enqueue_api_frame : Client → Bytes → Client × Bool
  enqueue_api_frame client json =
      if ltb u32_max (length json) || ltb (response_max - 4) (length json)
      then (client, false)
      else (let answering = record client { kind = responding; close_after_response = false } in
          let (headed, head_ok) = enqueue_response answering (u32_bytes (length json)) in
          if head_ok then enqueue_response headed json else (headed, false))

  -- One slot of `broadcast_attached_output`.
  unfoldable pub broadcast_one : Kind → Bytes → Client → Log → Client × Log
  broadcast_one kind buffer client log =
      if same_kind kind client.kind
      then (let (queued, done) = enqueue_response client buffer in
          if done then (queued, log) else close_control_client queued log)
      else (client, log)

  unfoldable pub broadcast_loop : Kind → Bytes → List Client → Log → List Client × Log
  unfolding broadcast_one
  broadcast_loop kind buffer [] log = ([], log)
  broadcast_loop kind buffer (client ∷ clients) log =
      let (first, log') = broadcast_one kind buffer client log in
      let (rest, log'') = broadcast_loop kind buffer clients log' in (first ∷ rest, log'')

  -- `stream` is compared with "stdout"; any other name is the error stream.
  unfoldable pub broadcast_attached_output : Bool → Bytes → List Client → Log → List Client × Log
  unfolding broadcast_loop
  broadcast_attached_output to_stdout buffer clients log =
      broadcast_loop (if to_stdout then attached_stdout else attached_stderr) buffer clients log
