-- ===== src/Control/Requests.antt =====
-- Requests as the dispatchers get them, however `read` cuts the bytes of the connection.
use cubicle.Control.Framing.{
  resume, Kept, scan-nil, scan-cons, byte_step-Kept, IsPart, delivered, scan-append,
}
use cubicle.Base.{
  subst, Bytes, ◌∷◌, [], refl, ℕ, All, List, Bool, ◌≡◌, arith, sym, ◌∙◌, ◌<◌, ◌++◌, length, ap,
}
use cubicle.Control.Client.{Client, Log}
use cubicle.Control.Read.{
  read_interrupted, read_would_block, read_failed, end_of_file, received, Step, scan, byte_step,
  keep, answer, line_complete, ReadResult, read_control_client_request, frame_complete,
  request_too_large, invalid_frame_length, received, bad_request, request_too_long,
}

abbrev touch : ℕ → Client → Client
touch now c = record c { last_activity = now }

resume-Kept :
    (s : Bytes)
    → ((c : Client) → Kept c.last_activity (scan c s))
    → (now : ℕ) (step : Step) → Kept now step
    → Kept now (resume step s)
unfolding resume Kept
resume-Kept s h now (keep next) e = subst (λ n. Kept n (scan next s)) e (h next)
resume-Kept s h now (line_complete next) e = tt
resume-Kept s h now (frame_complete next) e = tt
resume-Kept s h now (request_too_large next) e = tt
resume-Kept s h now (invalid_frame_length next) e = tt
resume-Kept s h now (bad_request next) e = tt
resume-Kept s h now (request_too_long next) e = tt

scan-Kept : (s : Bytes) (c : Client) → Kept c.last_activity (scan c s)
unfolding Kept
scan-Kept [] c = rw scan-nil refl
scan-Kept (x ∷ s) c =
    rw scan-cons (resume-Kept s (scan-Kept s) c.last_activity (byte_step c x) (byte_step-Kept c x))

module _ (alloc : ℕ → Bool)
    (dispatch_control_request dispatch_api_request : Client → Log → Client × Log) where
  abbrev read_with : List ReadResult → Client → Log → Client × Log
  read_with = read_control_client_request alloc dispatch_control_request dispatch_api_request

  abbrev answer_with : Step → Log → Client × Log
  answer_with = answer alloc dispatch_control_request dispatch_api_request

  received-answer :
      (results : List ReadResult) (rest : Bytes) (now : ℕ) (log : Log)
      → ((c : Client)
          → c.last_activity ≡ now
          → read_with results c log ≡ answer_with (scan c rest) log)
      → (step : Step) → Kept now step
      → elim step [
        | keep next ↦ read_with results next log
        | line_complete next ↦ answer_with (line_complete next) log
        | frame_complete next ↦ answer_with (frame_complete next) log
        | request_too_large next ↦ answer_with (request_too_large next) log
        | invalid_frame_length next ↦ answer_with (invalid_frame_length next) log
        | bad_request next ↦ answer_with (bad_request next) log
        | request_too_long next ↦ answer_with (request_too_long next) log
      ]
        ≡ answer_with (resume step rest) log
  unfolding Kept resume
  received-answer results rest now log h (keep next) e = h next e
  received-answer results rest now log h (line_complete next) e = refl
  received-answer results rest now log h (frame_complete next) e = refl
  received-answer results rest now log h (request_too_large next) e = refl
  received-answer results rest now log h (invalid_frame_length next) e = refl
  received-answer results rest now log h (bad_request next) e = refl
  received-answer results rest now log h (request_too_long next) e = refl

  read-received :
      (at_time : ℕ) (buffer : Bytes) (results : List ReadResult) (now : ℕ) (c : Client) (log : Log)
      → at_time ≡ now
      → ((next : Client)
          → next.last_activity ≡ now
          → read_with results next log ≡ answer_with (scan next (delivered results)) log)
      → read_with (received at_time buffer ∷ results) c log
        ≡ answer_with (scan (touch at_time c) (buffer ++ delivered results)) log
  unfolding read_control_client_request
  read-received at_time buffer results now c log e h =
      received-answer results (delivered results) now log h (scan (touch at_time c) buffer)
        (subst (λ n. Kept n (scan (touch at_time c) buffer)) e (scan-Kept buffer (touch at_time c)))
      ∙ ap (λ step. answer_with step log)
          (sym (scan-append buffer (delivered results) (touch at_time c)))

  -- Once bytes have been received, what a client does depends on the bytes alone.
  read-touched :
      (results : List ReadResult) (now : ℕ) (c : Client) (log : Log)
      → All (IsPart now) results
      → c.last_activity ≡ now
      → read_with results c log ≡ answer_with (scan c (delivered results)) log
  unfolding read_control_client_request IsPart delivered answer
  read-touched [] now c log parts e = ap (λ step. answer_with step log) (sym (scan-nil c))
  read-touched (read_interrupted ∷ results) now c log parts e =
      read-touched results now c log parts.1 e
  read-touched (received at_time buffer ∷ results) now c log parts e =
      read-received at_time buffer results now c log parts.0
        (λ next. read-touched results now next log parts.1)
      ∙ ap (λ t. answer_with (scan (touch t c) (buffer ++ delivered results)) log) (parts.0 ∙ sym e)
  read-touched (read_would_block ∷ results) now c log parts e = absurd parts.0
  read-touched (read_failed ∷ results) now c log parts e = absurd parts.0
  read-touched (end_of_file ∷ results) now c log parts e = absurd parts.0

  -- What a client does depends on the bytes alone, not on how the calls cut them.
  pub read_control_client_request-answer :
      (results : List ReadResult) (now : ℕ) (c : Client) (log : Log)
      → All (IsPart now) results
      → 0 < length (delivered results)
      → read_with results c log ≡ answer_with (scan (touch now c) (delivered results)) log
  unfolding read_control_client_request IsPart delivered
  read_control_client_request-answer [] now c log parts some_bytes = grind arith
  read_control_client_request-answer (read_interrupted ∷ results) now c log parts some_bytes =
      read_control_client_request-answer results now c log parts.1 some_bytes
  read_control_client_request-answer (received at_time buffer ∷ results) now c log parts
        some_bytes =
      read-received at_time buffer results now c log parts.0
        (λ next. read-touched results now next log parts.1)
      ∙ ap (λ t. answer_with (scan (touch t c) (buffer ++ delivered results)) log) parts.0
  read_control_client_request-answer (read_would_block ∷ results) now c log parts some_bytes =
      absurd parts.0
  read_control_client_request-answer (read_failed ∷ results) now c log parts some_bytes =
      absurd parts.0
  read_control_client_request-answer (end_of_file ∷ results) now c log parts some_bytes =
      absurd parts.0
