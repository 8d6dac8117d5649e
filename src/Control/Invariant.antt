-- ===== src/Control/Invariant.antt =====
-- Every operation keeps the invariant of a client slot.
use cubicle.Auth.{u32_bytes, u32_max}
use cubicle.Control.Enqueue.{enqueue_error_response, enqueue_api_frame, enqueue_response}
use cubicle.Control.Framing.{resume, scan-nil, scan-cons}
use cubicle.Control.Writing.{Queued, enqueue_response-Queued}
use cubicle.Control.Valid.{IsClient}
use cubicle.Base.{
  ℕ, false, ◌∷◌, arith, true, Bool, Bytes, subst, [], sym, length-append, ◌≤◌, length-drop, ◌≡◌,
  refl, drop, length-take, length, ◌++◌, ◌||◌, ltb, if◌then◌else◌, codes, leb, ◌-◌,
}
use cubicle.Control.Client.{
  Client, Log, empty_client, responding, close_control_client, response_max,
}
use cubicle.Control.Read.{
  keep, line_complete, frame_complete, request_too_large, invalid_frame_length, bad_request,
  request_too_long, Step, byte_step, frame_byte, frame_stored, line_byte, strip_return,
  line_request, api_request, scan, close_unless,
}

pub empty_client-IsClient : IsClient empty_client
empty_client-IsClient = record {
  request_fits = omega arith;
  offset_fits = omega arith;
  response_fits = omega arith;
  capacity_fits = omega arith;
  frame_fits = λ e. omega arith;
}

Queued-IsClient :
    (alloc : ℕ → Bool) (c left : Client) (buffer : Bytes) (done : Bool)
    → IsClient c
    → Queued alloc c buffer (left, done)
    → IsClient left
unfolding Queued
Queued-IsClient alloc c left buffer false v h = subst IsClient (sym h.0) v
Queued-IsClient alloc c left buffer true v h = subst IsClient (sym h.1) record {
  request_fits = v.request_fits;
  offset_fits = omega (arith, v.offset_fits, length-append c.response buffer);
  response_fits = omega (arith, h.2, length-append c.response buffer);
  capacity_fits = h.4;
  frame_fits = v.frame_fits;
}

-- What a step leaves for the call after it; a client that is refused has yet to be marked as
-- responding.
unfoldable pub IsStep : Step → Type 0
IsStep (keep next) = IsClient next
IsStep (line_complete next) = IsClient next
IsStep (frame_complete next) = IsClient next
IsStep (request_too_large next) = IsClient (record next { kind = responding })
IsStep (invalid_frame_length next) = IsClient (record next { kind = responding })
IsStep (bad_request next) = IsClient (record next { kind = responding })
IsStep (request_too_long next) = IsClient (record next { kind = responding })

byte_step-IsStep : (c : Client) (x : ℕ) → IsClient c → IsStep (byte_step c x)
unfolding byte_step frame_byte frame_stored line_byte IsStep
byte_step-IsStep c x v = ground (arith, length-append c.request (x ∷ []))

resume-IsStep :
    (s : Bytes) (step : Step)
    → ((c : Client) → IsClient c → IsStep (scan c s))
    → IsStep step
    → IsStep (resume step s)
unfolding resume IsStep
resume-IsStep s (keep next) h v = h next v
resume-IsStep s (line_complete next) h v = v
resume-IsStep s (frame_complete next) h v = v
resume-IsStep s (request_too_large next) h v = v
resume-IsStep s (invalid_frame_length next) h v = v
resume-IsStep s (bad_request next) h v = v
resume-IsStep s (request_too_long next) h v = v

pub scan-IsStep : (s : Bytes) (c : Client) → IsClient c → IsStep (scan c s)
unfolding IsStep
scan-IsStep [] c v = rw scan-nil v
scan-IsStep (x ∷ s) c v =
    rw scan-cons (resume-IsStep s (byte_step c x) (scan-IsStep s) (byte_step-IsStep c x v))

strip_return-length : (s : Bytes) → length (strip_return s) ≤ length s
unfolding strip_return
strip_return-length [] = omega arith
strip_return-length (c ∷ []) = ground arith
strip_return-length (c ∷ d ∷ s) = omega (arith, strip_return-length (d ∷ s))

pub line_request-IsClient : (c : Client) → IsClient c → IsClient (line_request c)
unfolding line_request
line_request-IsClient c v = record {
  request_fits = omega (arith, v.request_fits, strip_return-length c.request);
  offset_fits = v.offset_fits;
  response_fits = v.response_fits;
  capacity_fits = v.capacity_fits;
  frame_fits = v.frame_fits;
}

pub api_request-IsClient : (c : Client) → IsClient c → IsClient (api_request c)
unfolding api_request
api_request-IsClient c v = record {
  request_fits = omega (
    arith,
    v.request_fits,
    length-take c.framed_length (drop 4 c.request),
    length-drop 4 c.request,
  );
  offset_fits = v.offset_fits;
  response_fits = v.response_fits;
  capacity_fits = v.capacity_fits;
  frame_fits = v.frame_fits;
}

module _ (alloc : ℕ → Bool) where
  unfoldable pub Settles : Client × Bool → Type 0
  Settles (c, done) = done ≡ true → IsClient c

  if-Settles :
      (b : Bool) (p q : Client × Bool) → Settles p → Settles q → Settles (if b then p else q)
  if-Settles true p q h k = h
  if-Settles false p q h k = k

  pub enqueue_response-IsClient :
      (c : Client) (buffer : Bytes) → IsClient c → IsClient (enqueue_response alloc c buffer).0
  enqueue_response-IsClient c buffer v =
      let left = enqueue_response alloc c buffer in
      Queued-IsClient alloc c left.0 buffer left.1 v (enqueue_response-Queued alloc c buffer v)

  -- Answering keeps the invariant where the answer is queued; where it is not, the client is closed.
  pub enqueue_error_response-Settles :
      (c : Client) (message : Bytes)
      → IsClient (record c { kind = responding })
      → Settles (enqueue_error_response alloc c message)
  unfolding enqueue_error_response Settles
  enqueue_error_response-Settles c message v =
      if-Settles (leb 256 (length (codes "error " ++ (message ++ 10 ∷ [])))) (c, false) _ (λ e. cc)
        (λ e.
          enqueue_response-IsClient (record c { kind = responding; close_after_response = true }) _
            (record {
              request_fits = v.request_fits;
              offset_fits = v.offset_fits;
              response_fits = v.response_fits;
              capacity_fits = v.capacity_fits;
              frame_fits = v.frame_fits;
            }))

  pub enqueue_api_frame-Settles :
      (c : Client) (json : Bytes)
      → IsClient (record c { kind = responding })
      → Settles (enqueue_api_frame alloc c json)
  unfolding enqueue_api_frame Settles
  enqueue_api_frame-Settles c json v =
      let answering = record c { kind = responding; close_after_response = false } in
      let headed = enqueue_response alloc answering (u32_bytes (length json)) in
      let headed-IsClient = enqueue_response-IsClient answering (u32_bytes (length json)) (record {
        request_fits = v.request_fits;
        offset_fits = v.offset_fits;
        response_fits = v.response_fits;
        capacity_fits = v.capacity_fits;
        frame_fits = v.frame_fits;
      }) in
      if-Settles (ltb u32_max (length json) || ltb (response_max - 4) (length json)) (c, false) _
        (λ e. cc)
        (if-Settles headed.1 (enqueue_response alloc headed.0 json) (headed.0, false)
          (λ e. enqueue_response-IsClient headed.0 json headed-IsClient) (λ e. headed-IsClient))

  pub close_unless-IsClient :
      (c : Client) (done : Bool) (log : Log)
      → Settles (c, done)
      → IsClient (close_unless alloc (c, done) log).0
  unfolding close_unless close_control_client Settles
  close_unless-IsClient c true log h = h refl
  close_unless-IsClient c false log h = empty_client-IsClient
