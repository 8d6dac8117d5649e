-- ===== src/Control/Read.antt =====
-- Reading requests: the bytes of a connection are lines of the older text protocol, or frames, a
-- length of four bytes in network order and that many bytes of JSON. What a complete request does
-- is the business of the two dispatchers, which are arguments here.
use cubicle.Json.Buffer.{json_escape}
use cubicle.Control.Enqueue.{enqueue_api_frame, enqueue_error_response}
use cubicle.Base.Result.{Result, enospc, err, ok, einval, ◌>>=◌}
use cubicle.Base.{
  false, ◌||◌, ltb, ◌==◌, Bytes, leb, [], codes, ◌-◌, Bool, drop, length, true, ◌*◌, ◌∷◌, ◌&&◌,
  take, if◌then◌else◌, ◌+◌, some, ℕ, ◌++◌, List,
}
use cubicle.Control.Client.{Client, request_max, line_request_max, Log, close_control_client}

-- `ntohl` of the four bytes at the front of `request`.
unfoldable pub network_u32 : Bytes → ℕ
network_u32 (a ∷ b ∷ c ∷ d ∷ _) = ((a * 256 + b) * 256 + c) * 256 + d
network_u32 _ = 0

-- What one call of `read` gave, of up to 128 bytes; with bytes also the clock.
pub data ReadResult : Type 0 where
  received : ℕ → Bytes → ReadResult
  read_interrupted read_would_block read_failed end_of_file : ReadResult

-- What one byte does to a client: the loop goes on, a request is complete, or the client is told of
-- an error. The three texts are the messages of the source.
pub data Step : Type 0 where
  keep line_complete frame_complete : Client → Step
  request_too_large invalid_frame_length : Client → Step
  bad_request request_too_long : Client → Step

abbrev pub with_byte : Client → ℕ → Client
with_byte client c = record client { request = client.request ++ c ∷ [] }

-- `sizeof(client->request) - sizeof(uint32_t)`.
abbrev pub frame_limit : ℕ
frame_limit = request_max - 4

-- After a byte of a frame was stored: the length is taken from the first four.
unfoldable pub frame_stored : Client → Step
unfolding network_u32
frame_stored client =
    let sized =
      if length client.request == 4
      then record client { framed_length = network_u32 client.request }
      else client in
    if length client.request == 4
      && (sized.framed_length == 0 || leb frame_limit sized.framed_length)
    then invalid_frame_length sized
    else if ltb 0 sized.framed_length && length sized.request == 4 + sized.framed_length
    then frame_complete sized
    else keep sized

unfoldable pub frame_byte : Client → ℕ → Step
unfolding frame_stored
frame_byte client c =
    if leb request_max (length client.request + 1)
    then request_too_large client
    else frame_stored (with_byte client c)

unfoldable pub line_byte : Client → ℕ → Step
line_byte client c =
    if c == 10
    then line_complete client
    else if c == 0
    then bad_request client
    else if leb line_request_max (length client.request + 1)
    then request_too_long client
    else keep (with_byte client c)

-- A request whose first byte is 0 is a frame, and so are the later ones of that connection.
abbrev pub mark_framed : Client → ℕ → Client
mark_framed client c =
    if length client.request == 0 && c == 0 then record client { framed_request = true } else client

unfoldable pub byte_step : Client → ℕ → Step
unfolding frame_byte line_byte
byte_step client c =
    let marked = mark_framed client c in
    if marked.framed_request then frame_byte marked c else line_byte marked c

-- The loop over the bytes of one `read`: it ends at the first byte that completes a request or is
-- refused, and the bytes after that one are not looked at.
unfoldable pub scan : Client → Bytes → Step
unfolding byte_step
scan client [] = keep client
scan client (c ∷ buffer) = elim (byte_step client c) [
  | keep next ↦ scan next buffer
  | line_complete next ↦ line_complete next
  | frame_complete next ↦ frame_complete next
  | request_too_large next ↦ request_too_large next
  | invalid_frame_length next ↦ invalid_frame_length next
  | bad_request next ↦ bad_request next
  | request_too_long next ↦ request_too_long next
]

-- A carriage return at the end of a line is dropped.
unfoldable pub strip_return : Bytes → Bytes
strip_return [] = []
strip_return (c ∷ []) = if c == 13 then [] else c ∷ []
strip_return (c ∷ d ∷ s) = c ∷ strip_return (d ∷ s)

-- What `dispatch_control_request` and `dispatch_api_request` are called with.
unfoldable pub line_request : Client → Client
unfolding strip_return
line_request client = record client { request = strip_return client.request }

unfoldable pub api_request : Client → Client
api_request client = record client { request = take client.framed_length (drop 4 client.request) }

-- `snprintf` into a buffer that must have room for the terminator.
unfoldable pub fit_response : ℕ → Bytes → Result Bytes
fit_response buffer_size text = if leb buffer_size (length text) then err enospc else ok text

-- `cubicle_rpc_error`; the error's number comes as its decimal digits.
unfoldable pub rpc_error : ℕ → Bytes → Bytes → Bytes → Bool → Bytes → Result Bytes
unfolding json_escape fit_response
rpc_error buffer_size request_id code_name message retryable system_errno =
    if buffer_size == 0 then err einval else (do
      escaped_message ← json_escape (some 512) (some message)
      fit_response buffer_size (
          codes "{\"request_id\":\""
          ++ (request_id
              ++ (codes "\",\"success\":false,\"error\":{\"code\":\""
                  ++ (code_name
                      ++ (codes "\",\"message\":\""
                          ++ (escaped_message
                              ++ (codes "\",\"retryable\":"
                                  ++ (codes (if retryable then "true" else "false")
                                      ++ (codes ",\"system_errno\":"
                                          ++ (system_errno ++ codes "}}")))))))))))

module _ (alloc : ℕ → Bool) where
  -- `enqueue_api_error` for the two errors of this file, of the code `resource_limit`.
  unfoldable pub enqueue_api_error : Client → Bytes → Client × Bool
  unfolding rpc_error
  enqueue_api_error client message =
      elim (rpc_error 2048 [] (codes "resource_limit") message false (codes "0")) [
        | err e ↦ (client, false)
        | ok response ↦ enqueue_api_frame alloc client response
      ]

  -- `if (... < 0) close_control_client(...)`.
  unfoldable pub close_unless : Client × Bool → Log → Client × Log
  close_unless answer log =
      let (client, done) = answer in if done then (client, log) else close_control_client client log

  module _ (dispatch_control_request dispatch_api_request : Client → Log → Client × Log) where
    unfoldable pub answer : Step → Log → Client × Log
    unfolding line_request api_request enqueue_api_error close_unless
    answer (keep client) log = (client, log)
    answer (line_complete client) log = dispatch_control_request (line_request client) log
    answer (frame_complete client) log = dispatch_api_request (api_request client) log
    answer (request_too_large client) log =
        close_unless (enqueue_api_error client (codes "request too large")) log
    answer (invalid_frame_length client) log =
        close_unless (enqueue_api_error client (codes "invalid frame length")) log
    answer (bad_request client) log =
        close_unless (enqueue_error_response alloc client (codes "bad_request")) log
    answer (request_too_long client) log =
        close_unless (enqueue_error_response alloc client (codes "request_too_long")) log

    -- `read_control_client_request`, on the results that the calls of `read` give in turn.
    unfoldable pub read_control_client_request : List ReadResult → Client → Log → Client × Log
    unfolding scan answer
    read_control_client_request [] client log = (client, log)
    read_control_client_request (read_interrupted ∷ results) client log =
        read_control_client_request results client log
    read_control_client_request (read_would_block ∷ results) client log = (client, log)
    read_control_client_request (read_failed ∷ results) client log = close_control_client client log
    read_control_client_request (end_of_file ∷ results) client log =
        if client.framed_request || length client.request == 0
        then close_control_client client log
        else answer (line_complete client) log
    read_control_client_request (received now buffer ∷ results) client log =
        elim (scan (record client { last_activity = now }) buffer) [
          | keep next ↦ read_control_client_request results next log
          | line_complete next ↦ answer (line_complete next) log
          | frame_complete next ↦ answer (frame_complete next) log
          | request_too_large next ↦ answer (request_too_large next) log
          | invalid_frame_length next ↦ answer (invalid_frame_length next) log
          | bad_request next ↦ answer (bad_request next) log
          | request_too_long next ↦ answer (request_too_long next) log
        ]
