-- ===== src/Control/Delivery.antt =====
-- What the two dispatchers are called with: the promise of the reader of requests.
use cubicle.Control.Calls.{IsArrival, heard_all, heard, read_calls, IsTime, read_calls-answer}
use cubicle.Control.Stored.{Completes}
use cubicle.Control.Clock.{touch_step}
use cubicle.Control.Frames.{scan-frame}
use cubicle.Control.Requests.{read_control_client_request-answer}
use cubicle.Auth.{u32_bytes}
use cubicle.Control.Framing.{IsPart, delivered}
use cubicle.Control.Read.{scan, answer, api_request, ReadResult, read_control_client_request}
use cubicle.Base.{
  Bytes, ◌<◌, ◌≢◌, length, false, [], true, ℕ, All, ap, ◌∷◌, Bool, List, refl, ◌++◌, arith, take,
  ◌≡◌, sym, subst, ◌∙◌, ◌+◌,
}
use cubicle.Control.Client.{Client, Log}

take-all : (s : Bytes) → take (length s) s ≡ s
take-all [] = refl
take-all (c ∷ s) = ap (λ r. c ∷ r) (take-all s)

-- The bytes of a line of text: none of them ends it.
abbrev pub IsTextByte : ℕ → Type 0
IsTextByte c = (c ≢ 0) × (c ≢ 10) × (c ≢ 13)

abbrev pub line_end : Bool → Bytes
line_end true = 13 ∷ 10 ∷ []
line_end false = 10 ∷ []

module _ (alloc : ℕ → Bool)
    (dispatch_control_request dispatch_api_request : Client → Log → Client × Log) where
  -- A frame of 1 to 8187 bytes that reaches a client with nothing pending, over any number of calls
  -- of `read_control_client_request`: whatever bytes the calls of `read` give at which times, and
  -- wherever they are interrupted or would block, the call with the frame's last byte calls the API
  -- dispatcher with exactly its body, and with the time of one of that call's reads.
  pub read_frame :
      (calls : List (List ReadResult)) (results : List ReadResult) (c : Client) (log : Log)
      (body rest : Bytes)
      → All (All IsArrival) calls
      → All IsArrival results
      → heard_all calls ++ heard results ≡ u32_bytes (length body) ++ (body ++ rest)
      → length (heard_all calls) < 4 + length body
      → c.request ≡ []
      → c.framed_length ≡ 0
      → 0 < length body
      → length body < 8188
      → let (waiting, log') =
          read_calls alloc dispatch_control_request dispatch_api_request calls c log in
        (now : ℕ) × IsTime now results
        × (read_control_client_request alloc dispatch_control_request dispatch_api_request results
              waiting log'
            ≡ dispatch_api_request
                (record c {
                  request = body;
                  framed_request = true;
                  framed_length = length body;
                  last_activity = now;
                })
                log)
  unfolding answer api_request touch_step Completes
  read_frame calls results c log body rest arrived_all arrived bytes few fresh unsized pos small =
      let scanned = ap (scan c) bytes ∙ scan-frame c body rest fresh unsized pos small in
      let size : 4 + length body ≡ length (u32_bytes (length body) ++ body) = omega arith in
      let complete : Completes (4 + length body) (scan c (heard_all calls ++ heard results)) =
        subst (λ step. Completes (4 + length body) step) (sym scanned) size in
      let (now, seen, after) =
        read_calls-answer alloc dispatch_control_request dispatch_api_request (4 + length body)
          calls results c log arrived_all arrived complete (ground (arith, fresh)) in
      (
        now,
        seen,
        after
            ∙ ap
                (λ step.
                  answer alloc dispatch_control_request dispatch_api_request (touch_step now step)
                    log)
                scanned
            ∙ ap
                (λ s.
                  dispatch_api_request
                    (record c {
                      request = s;
                      framed_request = true;
                      framed_length = length body;
                      last_activity = now;
                    })
                    log)
                (take-all body),
      )

  -- What a client does with bytes that arrive at one time depends on the bytes alone: two sequences
  -- of calls that give the same bytes, cut and interrupted differently, leave the same client and
  -- the same log.
  pub read_control_client_request-delivered :
      (some_calls other_calls : List ReadResult) (now : ℕ) (c : Client) (log : Log)
      → All (IsPart now) some_calls
      → All (IsPart now) other_calls
      → delivered some_calls ≡ delivered other_calls
      → 0 < length (delivered some_calls)
      → read_control_client_request alloc dispatch_control_request dispatch_api_request some_calls c
          log
        ≡ read_control_client_request alloc dispatch_control_request dispatch_api_request
            other_calls c log
  read_control_client_request-delivered some_calls other_calls now c log parts others same pos =
      read_control_client_request-answer alloc dispatch_control_request dispatch_api_request
        some_calls now c log parts pos
      ∙ ap
          (λ s.
            answer alloc dispatch_control_request dispatch_api_request
              (scan (record c { last_activity = now }) s) log)
          same
      ∙ sym (
          read_control_client_request-answer alloc dispatch_control_request dispatch_api_request
            other_calls now c log others (subst (λ s. 0 < length s) same pos))
