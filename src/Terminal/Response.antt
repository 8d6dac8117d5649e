-- ===== src/Terminal/Response.antt =====
-- The answers of the terminal to the program, and the keys that are sent to it.
use cubicle.Base.{
  ◌≤◌, length, [], List, ◌∷◌, refl, ℕ, ltb, drop, ◌++◌, none, Option, take, some, Bool, Bytes,
  size_sub, if◌then◌else◌, ◌≡◌, ◌==◌, inr, append_assoc, take-append-drop, ap, length-take,
  take-append, subst, inl, sym, arith, ◌∙◌, Bool-cases, ltb→ge, ◌+◌, take-all, ◌⊎◌,
}
use cubicle.Base.Result.{Result, einval, enospc, err, ok}

abbrev pub answer_max : ℕ
answer_max = 4096

-- `capture_response`: what does not fit is dropped. The response is `response[0 .. response_length]`.
unfoldable pub capture_response : Bytes → Bytes → Bytes
capture_response response bytes =
    let available = size_sub answer_max (length response) in
    response ++ take (if ltb available (length bytes) then available else length bytes) bytes

-- The new response and what was copied; `none` is a null buffer.
unfoldable pub take_response : Bytes → Option ℕ → Result (Bytes × Bytes)
take_response response none = err einval
take_response response (some buffer_length) =
    if buffer_length == 0
    then err einval
    else (let copied =
          if ltb (length response) buffer_length then length response else buffer_length in
        ok (drop copied response, take copied response))

pub data Key : Type 0 where
  up down left right : Key

abbrev pub final_byte : Key → ℕ
final_byte up = b'A'
final_byte down = b'B'
final_byte right = b'C'
final_byte left = b'D'

-- The four keys are encoded here, and never by libvterm.
unfoldable pub encode_key : Bool → Key → Option ℕ → Result Bytes
encode_key application_cursor key none = err einval
encode_key application_cursor key (some buffer_length) =
    if buffer_length == 0
    then err einval
    else if ltb buffer_length 3
    then err enospc
    else ok (27 ∷ (if application_cursor then b'O' else b'[') ∷ final_byte key ∷ [])

-- A client that drains the response into buffers of the given sizes, in turn.
unfoldable pub drain : Bytes → List ℕ → Bytes × Bytes
unfolding take_response
drain response [] = (response, [])
drain response (size ∷ sizes) = elim (take_response response (some size)) [
  | err e ↦ drain response sizes
  | ok (kept, copied) ↦ (let (left_over, taken) = drain kept sizes in (left_over, copied ++ taken))
]

-- The shorter of two lengths, as the source picks it, takes the same bytes.
take-clamp :
    (n : ℕ) (bytes : Bytes)
    → take (if ltb n (length bytes) then n else length bytes) bytes ≡ take n bytes
take-clamp n bytes = elim (Bool-cases (ltb n (length bytes))) [
  | inl short ↦ rw short
  | inr whole ↦ rw whole (
      take-all (length bytes) bytes (omega arith)
      ∙ sym (take-all n bytes (ltb→ge n (length bytes) whole)))
]

clamped :
    (most n : ℕ) (response bytes : Bytes)
    → most ≡ length response + n
    → response ++ take (if ltb n (length bytes) then n else length bytes) bytes
      ≡ take most (response ++ bytes)
clamped most n response bytes e =
    ap (λ s. response ++ s) (take-clamp n bytes) ∙ sym (take-append most n response bytes e)

-- An answer is kept up to the buffer's 4096 bytes, and never beyond; the oldest bytes stay.
pub capture_response_bounds :
    (response bytes : Bytes)
    → length response ≤ answer_max
    → (capture_response response bytes ≡ take answer_max (response ++ bytes))
      × (length (capture_response response bytes) ≤ answer_max)
unfolding capture_response
capture_response_bounds response bytes small =
    let available = size_sub answer_max (length response) in
    let exact : answer_max ≡ length response + available = omega arith in
    let kept = clamped answer_max available response bytes exact in
    (
      kept,
      subst (λ s. length s ≤ answer_max) (sym kept)
          (omega (arith, length-take answer_max (response ++ bytes))),
    )

-- A buffer of no size takes nothing, any other takes the front of the response.
take_response-split :
    (size : ℕ) (response : Bytes)
    → (take_response response (some size) ≡ err einval)
      ⊎ ((copied : ℕ) × (take_response response (some size)
            ≡ ok (drop copied response, take copied response)))
unfolding take_response
take_response-split size response = elim (Bool-cases (size == 0)) [
  | inl nothing ↦ inl (rw nothing)
  | inr some_room ↦ inr (if ltb (length response) size then length response else size, rw some_room)
]

drain-empty :
    (size : ℕ) (sizes : List ℕ) (response : Bytes)
    → take_response response (some size) ≡ err einval
    → drain response (size ∷ sizes) ≡ drain response sizes
unfolding drain
drain-empty size sizes response nothing = rw (nothing, drain) refl

drain-piece :
    (size copied : ℕ) (sizes : List ℕ) (response : Bytes)
    → take_response response (some size) ≡ ok (drop copied response, take copied response)
    → let later = drain (drop copied response) sizes in
      drain response (size ∷ sizes) ≡ (later.0, take copied response ++ later.1)
unfolding drain
drain-piece size copied sizes response taken = rw (taken, drain) refl

-- However a client sizes its buffers, the pieces that it takes are the response from the front, and
-- what it has not taken is still there.
pub drain-append :
    (sizes : List ℕ) (response : Bytes)
    → (drain response sizes).1 ++ (drain response sizes).0 ≡ response
unfolding drain
drain-append [] response = refl
drain-append (size ∷ sizes) response = elim (take_response-split size response) [
  | inl nothing ↦
      subst (λ d. d.1 ++ d.0 ≡ response) (sym (drain-empty size sizes response nothing))
        (drain-append sizes response)
  | inr (copied, taken) ↦
      let later = drain (drop copied response) sizes in
      subst (λ d. d.1 ++ d.0 ≡ response) (sym (drain-piece size copied sizes response taken))
        (append_assoc (take copied response) later.1 later.0
          ∙ ap (λ s. take copied response ++ s) (drain-append sizes (drop copied response))
          ∙ take-append-drop copied response)
]
