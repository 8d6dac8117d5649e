-- ===== src/Control/Safety.antt =====
-- A whole turn of a client, reading or writing, keeps its invariant.
use cubicle.Control.Enqueue.{enqueue_api_frame, enqueue_error_response}
use cubicle.Control.Invariant.{
  IsStep, Settles, enqueue_api_frame-Settles, empty_client-IsClient, line_request-IsClient,
  scan-IsStep, api_request-IsClient, close_unless-IsClient, enqueue_error_response-Settles,
}
use cubicle.Control.Valid.{IsClient}
use cubicle.Base.Result.{Result, err, ok}
use cubicle.Base.{
  ℕ, length, [], false, Bool, codes, Bytes, List, Bool-cases, ◌||◌, ◌==◌, inr, ◌∷◌, inl,
  length-take, arith, length-drop, ◌&&◌, not,
}
use cubicle.Control.Client.{
  Client, Log, empty, reading, responding, attached_stdout, attached_stderr, attached_stdin,
  attaching_stdin, close_control_client, Kind,
}
use cubicle.Control.Read.{
  keep, line_complete, frame_complete, request_too_large, invalid_frame_length, bad_request,
  request_too_long, received, read_interrupted, read_would_block, read_failed, end_of_file,
  enqueue_api_error, read_control_client_request, answer, ReadResult, Step, rpc_error, line_request,
  scan, api_request,
}
use cubicle.Control.Flush.{
  room, write_interrupted, write_would_block, write_failed, after_drain, advanced, unsent, drained,
  flush_control_client_response, next_request, WriteResult, is_drained,
}

module _ (alloc : ℕ → Bool) (c : Client) (v : IsClient (record c { kind = responding })) where
  error_text-Settles :
      (text : Result Bytes)
      → Settles alloc
          (elim text [ err e ↦ (c, false) | ok response ↦ enqueue_api_frame alloc c response ])
  unfolding Settles
  error_text-Settles (err e) = λ h. cc
  error_text-Settles (ok response) = enqueue_api_frame-Settles alloc c response v

  enqueue_api_error-Settles : (message : Bytes) → Settles alloc (enqueue_api_error alloc c message)
  unfolding enqueue_api_error
  enqueue_api_error-Settles message =
      error_text-Settles (rpc_error 2048 [] (codes "resource_limit") message false (codes "0"))

touched-IsClient : (now : ℕ) (c : Client) → IsClient c → IsClient (record c { last_activity = now })
touched-IsClient now c v = record {
  request_fits = v.request_fits;
  offset_fits = v.offset_fits;
  response_fits = v.response_fits;
  capacity_fits = v.capacity_fits;
  frame_fits = v.frame_fits;
}

line_complete-IsStep : (c : Client) → IsClient c → IsStep (line_complete c)
unfolding IsStep
line_complete-IsStep c v = v

module _ (alloc : ℕ → Bool)
    (dispatch_control_request dispatch_api_request : Client → Log → Client × Log)
    (control_IsClient : (c : Client) (log : Log)
      → IsClient c
      → IsClient (dispatch_control_request c log).0)
    (api_IsClient : (c : Client) (log : Log)
      → IsClient c
      → IsClient (dispatch_api_request c log).0) where
  answer-IsClient :
      (step : Step) (log : Log)
      → IsStep step
      → IsClient (answer alloc dispatch_control_request dispatch_api_request step log).0
  unfolding answer IsStep
  answer-IsClient (keep c) log v = v
  answer-IsClient (line_complete c) log v =
      control_IsClient (line_request c) log (line_request-IsClient c v)
  answer-IsClient (frame_complete c) log v =
      api_IsClient (api_request c) log (api_request-IsClient c v)
  answer-IsClient (request_too_large c) log v =
      let told = enqueue_api_error alloc c (codes "request too large") in
      close_unless-IsClient alloc told.0 told.1 log
        (enqueue_api_error-Settles alloc c v (codes "request too large"))
  answer-IsClient (invalid_frame_length c) log v =
      let told = enqueue_api_error alloc c (codes "invalid frame length") in
      close_unless-IsClient alloc told.0 told.1 log
        (enqueue_api_error-Settles alloc c v (codes "invalid frame length"))
  answer-IsClient (bad_request c) log v =
      let told = enqueue_error_response alloc c (codes "bad_request") in
      close_unless-IsClient alloc told.0 told.1 log
        (enqueue_error_response-Settles alloc c (codes "bad_request") v)
  answer-IsClient (request_too_long c) log v =
      let told = enqueue_error_response alloc c (codes "request_too_long") in
      close_unless-IsClient alloc told.0 told.1 log
        (enqueue_error_response-Settles alloc c (codes "request_too_long") v)

  received-IsClient :
      (results : List ReadResult) (log : Log) (step : Step)
      → ((next : Client)
          → IsClient next
          → IsClient
              (read_control_client_request alloc dispatch_control_request dispatch_api_request
                results next log).0)
      → IsStep step
      → let left : Client × Log = elim step [
        | keep next ↦
            read_control_client_request alloc dispatch_control_request dispatch_api_request results
              next log
        | line_complete next ↦
            answer alloc dispatch_control_request dispatch_api_request (line_complete next) log
        | frame_complete next ↦
            answer alloc dispatch_control_request dispatch_api_request (frame_complete next) log
        | request_too_large next ↦
            answer alloc dispatch_control_request dispatch_api_request (request_too_large next) log
        | invalid_frame_length next ↦
            answer alloc dispatch_control_request dispatch_api_request
              (invalid_frame_length next)
              log
        | bad_request next ↦
            answer alloc dispatch_control_request dispatch_api_request (bad_request next) log
        | request_too_long next ↦
            answer alloc dispatch_control_request dispatch_api_request (request_too_long next) log
      ] in
        IsClient left.0
  unfolding IsStep
  received-IsClient results log (keep next) h v = h next v
  received-IsClient results log (line_complete next) h v =
      answer-IsClient (line_complete next) log v
  received-IsClient results log (frame_complete next) h v =
      answer-IsClient (frame_complete next) log v
  received-IsClient results log (request_too_large next) h v =
      answer-IsClient (request_too_large next) log v
  received-IsClient results log (invalid_frame_length next) h v =
      answer-IsClient (invalid_frame_length next) log v
  received-IsClient results log (bad_request next) h v = answer-IsClient (bad_request next) log v
  received-IsClient results log (request_too_long next) h v =
      answer-IsClient (request_too_long next) log v

  -- Whatever bytes arrive and however they are cut, reading them keeps the invariant of the client:
  -- no request is stored past its array, also not its terminator, and a frame that is being read
  -- fits. The two dispatchers are taken to keep the invariant themselves.
  pub read_control_client_request-IsClient :
      (results : List ReadResult) (c : Client) (log : Log)
      → IsClient c
      → IsClient
          (read_control_client_request alloc dispatch_control_request dispatch_api_request results c
            log).0
  unfolding read_control_client_request close_control_client
  read_control_client_request-IsClient [] c log v = v
  read_control_client_request-IsClient (read_interrupted ∷ results) c log v =
      read_control_client_request-IsClient results c log v
  read_control_client_request-IsClient (read_would_block ∷ results) c log v = v
  read_control_client_request-IsClient (read_failed ∷ results) c log v = empty_client-IsClient
  read_control_client_request-IsClient (end_of_file ∷ results) c log v =
      elim (Bool-cases (c.framed_request || length c.request == 0)) [
        | inl done ↦ rw done empty_client-IsClient
        | inr line ↦ rw line (answer-IsClient (line_complete c) log (line_complete-IsStep c v))
      ]
  read_control_client_request-IsClient (received now buffer ∷ results) c log v =
      received-IsClient results log (scan (record c { last_activity = now }) buffer)
        (λ next w. read_control_client_request-IsClient results next log w)
        (scan-IsStep buffer (record c { last_activity = now }) (touched-IsClient now c v))

drained-IsClient : (c : Client) → IsClient c → IsClient (drained c)
drained-IsClient c v = record {
  request_fits = v.request_fits;
  offset_fits = omega arith;
  response_fits = omega arith;
  capacity_fits = v.capacity_fits;
  frame_fits = v.frame_fits;
}

next_request-IsClient : (now : ℕ) (c : Client) → IsClient c → IsClient (next_request now c)
next_request-IsClient now c v = record {
  request_fits = omega arith;
  offset_fits = omega arith;
  response_fits = omega arith;
  capacity_fits = v.capacity_fits;
  frame_fits = λ e. omega arith;
}

after_drain-IsClient :
    (now : ℕ) (kind : Kind) (c : Client) (log : Log)
    → IsClient c
    → IsClient (after_drain now kind (drained c) log).0
unfolding after_drain close_control_client
after_drain-IsClient now empty c log v = drained-IsClient c v
after_drain-IsClient now reading c log v = drained-IsClient c v
after_drain-IsClient now responding c log v =
    elim (Bool-cases (c.framed_request && not c.close_after_response)) [
      | inl again ↦ rw again (next_request-IsClient now c v)
      | inr last ↦ rw last empty_client-IsClient
    ]
after_drain-IsClient now attached_stdout c log v = drained-IsClient c v
after_drain-IsClient now attached_stderr c log v = drained-IsClient c v
after_drain-IsClient now attaching_stdin c log v = record {
  request_fits = v.request_fits;
  offset_fits = omega arith;
  response_fits = omega arith;
  capacity_fits = v.capacity_fits;
  frame_fits = λ e. cc;
}
after_drain-IsClient now attached_stdin c log v = drained-IsClient c v

advanced-IsClient : (n : ℕ) (c : Client) → IsClient c → IsClient (advanced n c)
advanced-IsClient n c v = record {
  request_fits = v.request_fits;
  offset_fits =
      omega
        (arith, v.offset_fits, length-take n (unsent c), length-drop c.response_offset c.response);
  response_fits = v.response_fits;
  capacity_fits = v.capacity_fits;
  frame_fits = v.frame_fits;
}

-- Writing keeps the invariant of the client, however much of the response the socket takes.
pub flush_control_client_response-IsClient :
    (now : ℕ) (results : List WriteResult) (c : Client) (log : Log)
    → IsClient c
    → IsClient (flush_control_client_response now results c log).0
unfolding flush_control_client_response close_control_client
flush_control_client_response-IsClient now [] c log v = elim (Bool-cases (is_drained c)) [
  | inl all_sent ↦ rw all_sent (after_drain-IsClient now c.kind c log v)
  | inr some_left ↦ rw some_left v
]
flush_control_client_response-IsClient now (write_would_block ∷ results) c log v =
    elim (Bool-cases (is_drained c)) [
      | inl all_sent ↦ rw all_sent (after_drain-IsClient now c.kind c log v)
      | inr some_left ↦ rw some_left v
    ]
flush_control_client_response-IsClient now (write_interrupted ∷ results) c log v =
    elim (Bool-cases (is_drained c)) [
      | inl all_sent ↦ rw all_sent (after_drain-IsClient now c.kind c log v)
      | inr some_left ↦ rw some_left (flush_control_client_response-IsClient now results c log v)
    ]
flush_control_client_response-IsClient now (write_failed ∷ results) c log v =
    elim (Bool-cases (is_drained c)) [
      | inl all_sent ↦ rw all_sent (after_drain-IsClient now c.kind c log v)
      | inr some_left ↦ rw some_left empty_client-IsClient
    ]
flush_control_client_response-IsClient now (room n ∷ results) c log v =
    elim (Bool-cases (is_drained c)) [
      | inl all_sent ↦ rw all_sent (after_drain-IsClient now c.kind c log v)
      | inr some_left ↦ rw some_left (
          flush_control_client_response-IsClient now results (advanced n c) log
            (advanced-IsClient n c v))
    ]
