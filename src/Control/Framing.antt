-- ===== src/Control/Framing.antt =====
-- The loop over the bytes of a request, a step at a time: it does not depend on how the bytes are cut.

use cubicle.Base.{◌≡◌, Bytes, ℕ, [], ◌∷◌, refl, List, ◌++◌, arith}
use cubicle.Control.Client.{Client}
use cubicle.Control.Read.{
  Step, scan, byte_step, keep, ReadResult, received, read_interrupted, line_complete,
  frame_complete, request_too_large, invalid_frame_length, bad_request, request_too_long,
  frame_byte, frame_stored, line_byte,
}

-- `resume step s`: what becomes of a step when `s` comes after it.
unfoldable pub resume : Step → Bytes → Step
resume (keep next) s = scan next s
resume (line_complete c) s = line_complete c
resume (frame_complete c) s = frame_complete c
resume (request_too_large c) s = request_too_large c
resume (invalid_frame_length c) s = invalid_frame_length c
resume (bad_request c) s = bad_request c
resume (request_too_long c) s = request_too_long c

-- The bytes that a sequence of calls gave.
unfoldable pub delivered : List ReadResult → Bytes
delivered [] = []
delivered (received now buffer ∷ results) = buffer ++ delivered results
delivered (_ ∷ results) = delivered results

-- A call that gave bytes at this time, or was interrupted.
unfoldable pub IsPart : ℕ → ReadResult → Type 0
IsPart now (received at_time buffer) = at_time ≡ now
IsPart now read_interrupted = Unit
IsPart now _ = ⊥

resume-elim :
    (s : Bytes) (step : Step)
    → elim step [
      | keep next ↦ scan next s
      | line_complete next ↦ line_complete next
      | frame_complete next ↦ frame_complete next
      | request_too_large next ↦ request_too_large next
      | invalid_frame_length next ↦ invalid_frame_length next
      | bad_request next ↦ bad_request next
      | request_too_long next ↦ request_too_long next
    ]
      ≡ resume step s
unfolding resume
resume-elim s (keep next) = refl
resume-elim s (line_complete next) = refl
resume-elim s (frame_complete next) = refl
resume-elim s (request_too_large next) = refl
resume-elim s (invalid_frame_length next) = refl
resume-elim s (bad_request next) = refl
resume-elim s (request_too_long next) = refl

abbrev pub with_bytes : Client → Bytes → Client
with_bytes c s = record c { request = c.request ++ s }

pub scan-cons : (c : Client) (x : ℕ) (s : Bytes) → scan c (x ∷ s) ≡ resume (byte_step c x) s
unfolding scan
scan-cons c x s = resume-elim s (byte_step c x)

pub scan-nil : (c : Client) → scan c [] ≡ keep c
unfolding scan
scan-nil c = refl

pub resume-keep : (c : Client) (s : Bytes) → resume (keep c) s ≡ scan c s
unfolding resume
resume-keep c s = refl

resume-append :
    (s t : Bytes)
    → ((c : Client) → scan c (s ++ t) ≡ resume (scan c s) t)
    → (step : Step) → resume step (s ++ t) ≡ resume (resume step s) t
unfolding resume
resume-append s t h (keep next) = h next
resume-append s t h (line_complete next) = refl
resume-append s t h (frame_complete next) = refl
resume-append s t h (request_too_large next) = refl
resume-append s t h (invalid_frame_length next) = refl
resume-append s t h (bad_request next) = refl
resume-append s t h (request_too_long next) = refl

pub scan-append : (s t : Bytes) (c : Client) → scan c (s ++ t) ≡ resume (scan c s) t
scan-append [] t c = rw (scan-nil, resume-keep)
scan-append (x ∷ s) t c =
    rw
      (scan-cons c x (s ++ t), scan-cons c x s, resume-append s t (scan-append s t) (byte_step c x))

-- A step keeps the time that the client was last active.
unfoldable pub Kept : ℕ → Step → Type 0
Kept now (keep next) = next.last_activity ≡ now
Kept now _ = Unit

pub byte_step-Kept : (c : Client) (x : ℕ) → Kept c.last_activity (byte_step c x)
unfolding byte_step Kept frame_byte frame_stored line_byte
byte_step-Kept c x = ground arith
