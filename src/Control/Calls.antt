-- ===== src/Control/Calls.antt =====
-- The bytes of a request that arrive at different times and over several calls: what was read of a request
-- is kept from one call of `read_control_client_request` to the next.
use cubicle.Base.{
  ℕ, refl, ◌∙◌, List, ◌∷◌, Bytes, Bool, ◌⊎◌, All, ap, ◌≡◌, inl, [], inr, ◌++◌, sym, subst, length,
  ◌+◌, ◌<◌,
}
use cubicle.Control.Stored.{Completes, scan-unfinished}
use cubicle.Control.Clock.{touch, scan-touch, touch-touch, touch_step}
use cubicle.Control.Client.{Client, Log}
use cubicle.Control.Framing.{resume, scan-append, resume-keep, scan-nil}
use cubicle.Control.Read.{
  read_interrupted, read_would_block, read_failed, end_of_file, received, Step, scan, keep, answer,
  line_complete, ReadResult, read_control_client_request, frame_complete, request_too_large,
  invalid_frame_length, bad_request, request_too_long,
}

-- Bytes, an interrupted call, or the end of what the connection has for now.
unfoldable pub IsArrival : ReadResult → Type 0
IsArrival (received at_time buffer) = Unit
IsArrival read_interrupted = Unit
IsArrival read_would_block = Unit
IsArrival _ = ⊥

-- The bytes that one call reads: those up to where it would block.
unfoldable pub heard : List ReadResult → Bytes
heard [] = []
heard (received at_time buffer ∷ results) = buffer ++ heard results
heard (read_interrupted ∷ results) = heard results
heard (_ ∷ results) = []

unfoldable pub heard_all : List (List ReadResult) → Bytes
unfolding heard
heard_all [] = []
heard_all (results ∷ calls) = heard results ++ heard_all calls

-- Some bytes of a call were read at this time.
unfoldable pub IsTime : ℕ → List ReadResult → Type 0
IsTime now [] = ⊥
IsTime now (received at_time buffer ∷ results) = (now ≡ at_time) ⊎ IsTime now results
IsTime now (read_interrupted ∷ results) = IsTime now results
IsTime now (_ ∷ results) = ⊥

step_client : Step → Client
step_client (keep c) = c
step_client (line_complete c) = c
step_client (frame_complete c) = c
step_client (request_too_large c) = c
step_client (invalid_frame_length c) = c
step_client (bad_request c) = c
step_client (request_too_long c) = c

keep_injective : {c d : Client} → keep c ≡ keep d → c ≡ d
unfolding step_client
keep_injective e = ap step_client e

resume-kept :
    (step : Step) (s : Bytes) (d : Client)
    → resume step s ≡ keep d
    → (next : Client) × (step ≡ keep next) × (scan next s ≡ keep d)
unfolding resume
resume-kept (keep next) s d e = (next, refl, e)
resume-kept (line_complete next) s d e = cc
resume-kept (frame_complete next) s d e = cc
resume-kept (request_too_large next) s d e = cc
resume-kept (invalid_frame_length next) s d e = cc
resume-kept (bad_request next) s d e = cc
resume-kept (request_too_long next) s d e = cc

module _ (alloc : ℕ → Bool)
    (dispatch_control_request dispatch_api_request : Client → Log → Client × Log) where
  abbrev read_with : List ReadResult → Client → Log → Client × Log
  read_with = read_control_client_request alloc dispatch_control_request dispatch_api_request

  abbrev answer_with : Step → Log → Client × Log
  answer_with = answer alloc dispatch_control_request dispatch_api_request

  -- The controller calls `read_control_client_request` each time that the connection has bytes.
  unfoldable pub read_calls : List (List ReadResult) → Client → Log → Client × Log
  read_calls [] c log = (c, log)
  read_calls (results ∷ calls) c log =
      let (waiting, log') = read_with results c log in read_calls calls waiting log'

  -- What a call does, by its bytes alone, but for the time.
  abbrev Answers : List ReadResult → Client → Log → Client × Log → Type 0
  Answers results c log after =
      (now : ℕ) × (IsTime now results ⊎ ((now ≡ c.last_activity) × (heard results ≡ [])))
      × (after ≡ answer_with (touch_step now (scan c (heard results))) log)

  received-heard :
      (results : List ReadResult) (at_time : ℕ) (log : Log)
      → ((c : Client) → Answers results c log (read_with results c log))
      → (step : Step)
      → (now : ℕ) × ((now ≡ at_time) ⊎ IsTime now results)
        × (elim (touch_step at_time step) [
          | keep next ↦ read_with results next log
          | line_complete next ↦ answer_with (line_complete next) log
          | frame_complete next ↦ answer_with (frame_complete next) log
          | request_too_large next ↦ answer_with (request_too_large next) log
          | invalid_frame_length next ↦ answer_with (invalid_frame_length next) log
          | bad_request next ↦ answer_with (bad_request next) log
          | request_too_long next ↦ answer_with (request_too_long next) log
        ]
            ≡ answer_with (touch_step now (resume step (heard results))) log)
  unfolding touch_step resume
  received-heard results at_time log h (keep next) =
      let (now, seen, e) = h (touch at_time next) in
      (
        now,
        elim seen [ inl here ↦ inr here | inr (same, _) ↦ inl same ],
        e
            ∙ ap (λ step. answer_with step log)
                (ap (touch_step now) (scan-touch at_time (heard results) next)
                  ∙ touch-touch now at_time (scan next (heard results))),
      )
  received-heard results at_time log h (line_complete next) = (at_time, inl refl, refl)
  received-heard results at_time log h (frame_complete next) = (at_time, inl refl, refl)
  received-heard results at_time log h (request_too_large next) = (at_time, inl refl, refl)
  received-heard results at_time log h (invalid_frame_length next) = (at_time, inl refl, refl)
  received-heard results at_time log h (bad_request next) = (at_time, inl refl, refl)
  received-heard results at_time log h (request_too_long next) = (at_time, inl refl, refl)

  nothing-heard :
      (c : Client) (log : Log) → (c, log) ≡ answer_with (touch_step c.last_activity (scan c [])) log
  unfolding answer touch_step
  nothing-heard c log = rw scan-nil refl

  read-heard :
      (results : List ReadResult) (c : Client) (log : Log)
      → All IsArrival results
      → Answers results c log (read_with results c log)
  unfolding read_control_client_request IsArrival heard IsTime
  read-heard [] c log arrived = (c.last_activity, inr (refl, refl), nothing-heard c log)
  read-heard (read_interrupted ∷ results) c log arrived = read-heard results c log arrived.1
  read-heard (read_would_block ∷ results) c log arrived =
      (c.last_activity, inr (refl, refl), nothing-heard c log)
  read-heard (received at_time buffer ∷ results) c log arrived =
      let (now, seen, e) =
        received-heard results at_time log (λ next. read-heard results next log arrived.1)
          (scan c buffer) in
      (
        now,
        inl seen,
        rw (read_control_client_request, scan-touch at_time buffer c) e
            ∙ ap (λ step. answer_with (touch_step now step) log)
                (sym (scan-append buffer (heard results) c)),
      )
  read-heard (read_failed ∷ results) c log arrived = absurd arrived.0
  read-heard (end_of_file ∷ results) c log arrived = absurd arrived.0

  -- The calls that come before a request is complete keep what they read of it.
  Keeps : List (List ReadResult) → Client → Log → Client → Type 0
  Keeps calls c log d = (now : ℕ) × (read_calls calls c log ≡ (touch now d, log))

  read_calls-Keeps :
      (calls : List (List ReadResult)) (c d : Client) (log : Log)
      → All (All IsArrival) calls
      → scan c (heard_all calls) ≡ keep d
      → Keeps calls c log d
  unfolding read_calls heard_all Keeps answer touch_step
  read_calls-Keeps [] c d log arrived e =
      let same : c ≡ d = keep_injective (sym (scan-nil c) ∙ e) in
      (d.last_activity, ap (λ x. (x, log)) same)
  read_calls-Keeps (results ∷ calls) c d log arrived e =
      let (next, e1, e2) =
        resume-kept (scan c (heard results)) (heard_all calls) d
          (sym (scan-append (heard results) (heard_all calls) c) ∙ e) in
      let (now, _, after) = read-heard results c log arrived.0 in
      let kept : read_with results c log ≡ (touch now next, log) =
        after ∙ ap (λ step. answer_with (touch_step now step) log) e1 in
      let (later, rest) =
        read_calls-Keeps calls (touch now next) (touch now d) log arrived.1
          (scan-touch now (heard_all calls) next ∙ ap (touch_step now) e2) in
      (later, ap (λ r. read_calls calls r.0 r.1) kept ∙ rest)

  -- What the call does that completes a request, after calls that read the first part of it.
  pub read_calls-answer :
      (n : ℕ) (calls : List (List ReadResult)) (results : List ReadResult) (c : Client) (log : Log)
      → All (All IsArrival) calls
      → All IsArrival results
      → Completes n (scan c (heard_all calls ++ heard results))
      → length c.request + length (heard_all calls) < n
      → let (waiting, log') = read_calls calls c log in
        (now : ℕ) × IsTime now results
        × (read_with results waiting log'
            ≡ answer_with (touch_step now (scan c (heard_all calls ++ heard results))) log)
  unfolding Keeps touch_step Completes
  read_calls-answer n calls results c log arrived_all arrived complete few =
      let (d, kept) = scan-unfinished n c (heard_all calls) (heard results) complete few in
      let (was, waits) = read_calls-Keeps calls c d log arrived_all kept in
      let (now, seen, after) = read-heard results (touch was d) log arrived in
      let whole : scan c (heard_all calls ++ heard results) ≡ scan d (heard results) =
        scan-append (heard_all calls) (heard results) c
        ∙ ap (λ step. resume step (heard results)) kept
        ∙ resume-keep d (heard results) in
      (
        now,
        elim seen [
          | inl here ↦ here
          | inr (_, nothing) ↦
              let silent : scan d (heard results) ≡ keep d = ap (scan d) nothing ∙ scan-nil d in
              absurd (subst (λ step. Completes n step) (whole ∙ silent) complete)
        ],
        ap (λ r. read_with results r.0 r.1) waits
            ∙ after
            ∙ ap (λ step. answer_with step log)
                (ap (touch_step now) (scan-touch was (heard results) d)
                  ∙ touch-touch now was (scan d (heard results))
                  ∙ ap (touch_step now) (sym whole)),
      )
