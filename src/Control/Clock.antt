-- ===== src/Control/Clock.antt =====
-- The clock of a client: no step of the loop over the bytes depends on it.
use cubicle.Base.{
  ℕ, true, ◌∷◌, ◌==◌, refl, if◌then◌else◌, false, Bool, Bytes, length, ◌≡◌, [], ap, arith, ◌∙◌,
  ◌&&◌, sym, ◌+◌, leb,
}
use cubicle.Control.Client.{Client}
use cubicle.Control.Framing.{resume, scan-cons, scan-nil}
use cubicle.Control.Read.{
  Step, scan, byte_step, keep, line_complete, frame_complete, request_too_large,
  invalid_frame_length, bad_request, request_too_long, frame_byte, frame_stored, line_byte,
  with_byte, mark_framed,
}

abbrev pub touch : ℕ → Client → Client
touch now c = record c { last_activity = now }

unfoldable pub touch_step : ℕ → Step → Step
touch_step now (keep c) = keep (touch now c)
touch_step now (line_complete c) = line_complete (touch now c)
touch_step now (frame_complete c) = frame_complete (touch now c)
touch_step now (request_too_large c) = request_too_large (touch now c)
touch_step now (invalid_frame_length c) = invalid_frame_length (touch now c)
touch_step now (bad_request c) = bad_request (touch now c)
touch_step now (request_too_long c) = request_too_long (touch now c)

touch_step-if :
    (now : ℕ) (b : Bool) (s t : Step)
    → touch_step now (if b then s else t) ≡ (if b then touch_step now s else touch_step now t)
touch_step-if now true s t = refl
touch_step-if now false s t = refl

-- What a byte does to a client does not depend on the clock.
frame_stored-touch :
    (now : ℕ) (c : Client) → frame_stored (touch now c) ≡ touch_step now (frame_stored c)
unfolding frame_stored touch_step
frame_stored-touch now c = ground arith

frame_byte-touch :
    (now x : ℕ) (c : Client) → frame_byte (touch now c) x ≡ touch_step now (frame_byte c x)
unfolding frame_byte touch_step
frame_byte-touch now x c =
    ap (λ s. if leb 8192 (length c.request + 1) then request_too_large (touch now c) else s)
      (frame_stored-touch now (with_byte c x))
    ∙ sym (touch_step-if now (leb 8192 (length c.request + 1)) _ _)

line_byte-touch :
    (now x : ℕ) (c : Client) → line_byte (touch now c) x ≡ touch_step now (line_byte c x)
unfolding line_byte touch_step
line_byte-touch now x c = ground arith

marked_step-touch :
    (now x : ℕ) (framed : Bool) (c : Client)
    → (if framed then frame_byte (touch now c) x else line_byte (touch now c) x)
      ≡ touch_step now (if framed then frame_byte c x else line_byte c x)
marked_step-touch now x true c = frame_byte-touch now x c
marked_step-touch now x false c = line_byte-touch now x c

mark_if-touch :
    (now : ℕ) (first : Bool) (c d : Client)
    → (if first then touch now c else touch now d) ≡ touch now (if first then c else d)
mark_if-touch now true c d = refl
mark_if-touch now false c d = refl

byte_step-touch :
    (now x : ℕ) (c : Client) → byte_step (touch now c) x ≡ touch_step now (byte_step c x)
unfolding byte_step
byte_step-touch now x c =
    ap (λ (d : Client). if d.framed_request then frame_byte d x else line_byte d x)
      (mark_if-touch now (length c.request == 0 && x == 0) (record c { framed_request = true }) c)
    ∙ marked_step-touch now x (mark_framed c x).framed_request (mark_framed c x)

resume-touch :
    (now : ℕ) (s : Bytes)
    → ((c : Client) → scan (touch now c) s ≡ touch_step now (scan c s))
    → (step : Step) → resume (touch_step now step) s ≡ touch_step now (resume step s)
unfolding resume touch_step
resume-touch now s h (keep next) = h next
resume-touch now s h (line_complete next) = refl
resume-touch now s h (frame_complete next) = refl
resume-touch now s h (request_too_large next) = refl
resume-touch now s h (invalid_frame_length next) = refl
resume-touch now s h (bad_request next) = refl
resume-touch now s h (request_too_long next) = refl

pub scan-touch :
    (now : ℕ) (s : Bytes) (c : Client) → scan (touch now c) s ≡ touch_step now (scan c s)
unfolding touch_step
scan-touch now [] c = rw (scan-nil, scan-nil)
scan-touch now (x ∷ s) c =
    rw (scan-cons (touch now c) x s, scan-cons c x s, byte_step-touch now x c)
      (resume-touch now s (scan-touch now s) (byte_step c x))

pub touch-touch :
    (now was : ℕ) (step : Step) → touch_step now (touch_step was step) ≡ touch_step now step
unfolding touch_step
touch-touch now was (keep next) = refl
touch-touch now was (line_complete next) = refl
touch-touch now was (frame_complete next) = refl
touch-touch now was (request_too_large next) = refl
touch-touch now was (invalid_frame_length next) = refl
touch-touch now was (bad_request next) = refl
touch-touch now was (request_too_long next) = refl
