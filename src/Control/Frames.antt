-- ===== src/Control/Frames.antt =====
-- What the loop over the bytes does with a frame.
use cubicle.Auth.{u32_bytes}
use cubicle.Control.Client.{Client}
use cubicle.Control.Framing.{resume, scan-append, with_bytes, resume-keep, scan-cons, scan-nil}
use cubicle.Control.Read.{
  network_u32, byte_step, frame_byte, frame_stored, scan, keep, frame_complete, with_byte,
}
use cubicle.Base.{
  ◌≡◌, length-append, ◌+◌, ◌≤◌, length, false, append_assoc, refl, arith, subst, [], ◌/◌, ◌++◌, ◌<◌,
  ◌%◌, true, Bytes, if◌then◌else◌, ◌==◌, ap, ◌∷◌, ℕ, ◌^◌, ◌∙◌,
}

-- A byte of a frame that has its length: it is stored, and the last one completes the frame.
byte_step-body :
    (c : Client) (x : ℕ)
    → c.framed_request ≡ true
    → 4 ≤ length c.request
    → length c.request < 4 + c.framed_length
    → c.framed_length < 8188
    → byte_step c x ≡ (
        if (length c.request + 1) == 4 + c.framed_length
        then frame_complete (with_byte c x)
        else keep (with_byte c x))
unfolding byte_step frame_byte frame_stored
byte_step-body c x framed long inside small = ground (arith, length-append c.request (x ∷ []))

scan-body :
    (s : Bytes) (x : ℕ) (c : Client)
    → c.framed_request ≡ true
    → 4 ≤ length c.request
    → length c.request + (length s + 1) ≡ 4 + c.framed_length
    → c.framed_length < 8188
    → scan c (x ∷ s) ≡ frame_complete (with_bytes c (x ∷ s))
unfolding resume
scan-body [] x c framed long whole small =
    let last : ((length c.request + 1) == 4 + c.framed_length) ≡ true = ground arith in
    rw (scan-cons, byte_step-body c x framed long (omega arith) small, last)
scan-body (y ∷ s) x c framed long whole small =
    let more : ((length c.request + 1) == 4 + c.framed_length) ≡ false = ground arith in
    let grown : length (c.request ++ x ∷ []) ≡ length c.request + 1 =
      length-append c.request (x ∷ []) in
    rw (scan-cons, byte_step-body c x framed long (omega arith) small, more, resume-keep)
      (scan-body s y (with_byte c x) framed (omega arith) (omega arith) small
        ∙ ap (λ r. frame_complete (record c { request = r }))
            (append_assoc c.request (x ∷ []) (y ∷ s)))

-- `htonl` and `ntohl` are inverse.
pub network_u32-u32_bytes : (n : ℕ) → n < 2 ^ 32 → network_u32 (u32_bytes n) ≡ n
unfolding network_u32
network_u32-u32_bytes n small = omega arith

byte_step-first :
    (c : Client)
    → c.request ≡ []
    → c.framed_length ≡ 0
    → byte_step c 0 ≡ keep (record c { request = 0 ∷ []; framed_request = true })
unfolding byte_step frame_byte frame_stored
byte_step-first c none_yet unsized = rw (none_yet, unsized)

byte_step-size :
    (c : Client) (x : ℕ)
    → c.framed_request ≡ true
    → c.framed_length ≡ 0
    → 0 < length c.request
    → length c.request < 3
    → byte_step c x ≡ keep (with_byte c x)
unfolding byte_step frame_byte frame_stored
byte_step-size c x framed unsized some_bytes few = ground (arith, length-append c.request (x ∷ []))

byte_step-sized :
    (c : Client) (x n : ℕ)
    → c.framed_request ≡ true
    → length c.request ≡ 3
    → network_u32 (c.request ++ x ∷ []) ≡ n
    → 0 < n
    → n < 8188
    → byte_step c x ≡ keep (record c { request = c.request ++ x ∷ []; framed_length = n })
unfolding byte_step frame_byte frame_stored
byte_step-sized c x n framed three value pos small =
    ground (arith, length-append c.request (x ∷ []))

-- The first four bytes of a frame of at most 8187 bytes.
scan-header :
    (c : Client) (n : ℕ)
    → c.request ≡ []
    → c.framed_length ≡ 0
    → 0 < n
    → n < 8188
    → scan c (u32_bytes n)
      ≡ keep (record c { request = u32_bytes n; framed_request = true; framed_length = n })
unfolding resume
scan-header c n none_yet unsized pos small =
    let zero_first : n / 2 ^ 24 % 256 ≡ 0 = omega arith in
    let first = record c { request = 0 ∷ []; framed_request = true } in
    let second = with_byte first (n / 2 ^ 16 % 256) in
    let third = with_byte second (n / 2 ^ 8 % 256) in
    let value : network_u32 (third.request ++ n % 256 ∷ []) ≡ n =
      subst (λ z. network_u32 (z ∷ n / 2 ^ 16 % 256 ∷ n / 2 ^ 8 % 256 ∷ n % 256 ∷ []) ≡ n)
        zero_first (network_u32-u32_bytes n (omega arith)) in
    rw (
      scan-cons c (n / 2 ^ 24 % 256),
      zero_first,
      byte_step-first c none_yet unsized,
      resume-keep,
      scan-cons first,
      byte_step-size first (n / 2 ^ 16 % 256) refl unsized (omega arith) (omega arith),
      resume-keep,
      scan-cons second,
      byte_step-size second (n / 2 ^ 8 % 256) refl unsized (omega arith) (omega arith),
      resume-keep,
      scan-cons third,
      byte_step-sized third (n % 256) n refl refl value pos small,
      resume-keep,
      scan-nil,
    )

-- What a frame does to a client that has read nothing of it yet; `rest` is not looked at.
pub scan-frame :
    (c : Client) (body rest : Bytes)
    → c.request ≡ []
    → c.framed_length ≡ 0
    → 0 < length body
    → length body < 8188
    → scan c (u32_bytes (length body) ++ (body ++ rest))
      ≡ frame_complete (record c {
        request = u32_bytes (length body) ++ body;
        framed_request = true;
        framed_length = length body;
      })
unfolding resume
scan-frame c [] rest none_yet unsized pos small = grind arith
scan-frame c (x ∷ body) rest none_yet unsized pos small =
    let n = length (x ∷ body) in
    let sized = record c { request = u32_bytes n; framed_request = true; framed_length = n } in
    rw (
      scan-append (u32_bytes n) (x ∷ body ++ rest),
      scan-header c n none_yet unsized pos small,
      resume-keep,
      scan-append (x ∷ body) rest sized,
      scan-body body x sized refl (omega arith) (omega arith) small,
    )
