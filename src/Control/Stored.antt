-- ===== src/Control/Stored.antt =====
-- The loop over the bytes stores no more than it reads, so it does not complete a request early.
use cubicle.Base.{
  ℕ, arith, ◌∷◌, [], subst, refl, ◌++◌, length, Bytes, ◌+◌, ◌≡◌, ◌<◌, length-append, ◌≤◌,
}
use cubicle.Control.Client.{Client}
use cubicle.Control.Framing.{resume, scan-append, scan-cons, scan-nil}
use cubicle.Control.Read.{
  Step, scan, byte_step, keep, line_complete, frame_complete, request_too_large,
  invalid_frame_length, bad_request, request_too_long, frame_byte, frame_stored, line_byte,
}

-- How much is stored after so many bytes: the end of a line is not.
unfoldable pub Stored : ℕ → Step → Type 0
Stored n (keep c) = length c.request ≤ n
Stored n (line_complete c) = length c.request < n
Stored n (frame_complete c) = length c.request ≤ n
Stored n _ = Unit

byte_step-Stored : (c : Client) (x : ℕ) → Stored (length c.request + 1) (byte_step c x)
unfolding byte_step Stored frame_byte frame_stored line_byte
byte_step-Stored c x = ground (arith, length-append c.request (x ∷ []))

resume-Stored :
    (s : Bytes) (m : ℕ)
    → ((c : Client) → Stored (length c.request + length s) (scan c s))
    → (step : Step) → Stored m step
    → Stored (m + length s) (resume step s)
unfolding resume Stored
resume-Stored s m h (keep next) e = at_most (scan next s) (omega arith) (h next)
  where
    at_most : {k n : ℕ} (step : Step) → k ≤ n → Stored k step → Stored n step
    at_most (keep c) le e = omega arith
    at_most (line_complete c) le e = omega arith
    at_most (frame_complete c) le e = omega arith
    at_most (request_too_large c) le e = tt
    at_most (invalid_frame_length c) le e = tt
    at_most (bad_request c) le e = tt
    at_most (request_too_long c) le e = tt
resume-Stored s m h (line_complete next) e = omega arith
resume-Stored s m h (frame_complete next) e = omega arith
resume-Stored s m h (request_too_large next) e = tt
resume-Stored s m h (invalid_frame_length next) e = tt
resume-Stored s m h (bad_request next) e = tt
resume-Stored s m h (request_too_long next) e = tt

scan-Stored : (s : Bytes) (c : Client) → Stored (length c.request + length s) (scan c s)
unfolding Stored
scan-Stored [] c = rw scan-nil (omega arith)
scan-Stored (x ∷ s) c =
    let sum : length c.request + 1 + length s ≡ length c.request + length (x ∷ s) = omega arith in
    subst (λ n. Stored n (scan c (x ∷ s))) sum
      (rw scan-cons (
        resume-Stored s (length c.request + 1) (scan-Stored s) (byte_step c x)
          (byte_step-Stored c x)))

-- A step that completes a request after so many bytes.
unfoldable pub Completes : ℕ → Step → Type 0
Completes n (line_complete c) = n ≡ length c.request + 1
Completes n (frame_complete c) = n ≡ length c.request
Completes n _ = ⊥

-- With fewer bytes than a request has, the client goes on to read it.
pub scan-unfinished :
    (n : ℕ) (c : Client) (p q : Bytes)
    → Completes n (scan c (p ++ q))
    → length c.request + length p < n
    → (d : Client) × (scan c p ≡ keep d)
unfolding Completes Stored resume
scan-unfinished n c p q complete few =
    by_step (scan c p) (scan-Stored p c)
      (subst (λ step. Completes n step) (scan-append p q c) complete)
  where
    by_step :
        (step : Step)
        → Stored (length c.request + length p) step
        → Completes n (resume step q)
        → (d : Client) × (step ≡ keep d)
    by_step (keep d) stored h = (d, refl)
    by_step (line_complete d) stored h = absurd (omega arith)
    by_step (frame_complete d) stored h = absurd (omega arith)
    by_step (request_too_large d) stored h = absurd h
    by_step (invalid_frame_length d) stored h = absurd h
    by_step (bad_request d) stored h = absurd h
    by_step (request_too_long d) stored h = absurd h
