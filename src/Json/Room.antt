-- ===== src/Json/Room.antt =====
-- Space: when the fixed buffer is too small, and what the growing builder holds after each call.
use cubicle.Json.Buffer.{append_raw, escape_loop, json_escape}
use cubicle.Json.Chunk.{escape_chunk, unicode_escape}
use cubicle.Base.{
  ◌++◌, if◌then◌else◌, ◌≡◌, [], length, ◌∷◌, inl, ◌≤◌, ℕ, inr, ◌+◌, arith, ◌<◌, ◌^◌, Bool-cases,
  Bytes, ltb, append_assoc, some, append-nil, ◌∙◌, ltb→lt, length-append,
}
use cubicle.Base.Result.{enospc, ok, err}

-- The whole escape of a C string.
abbrev pub escape_text : Bytes → Bytes
escape_text [] = []
escape_text (c ∷ v) = escape_chunk c ++ escape_text v

length-escape_chunk : (c : ℕ) → length (escape_chunk c) ≤ 6
unfolding escape_chunk unicode_escape
length-escape_chunk c = ground arith

append_raw-exact :
    (n : ℕ) (written value : Bytes)
    → n < 2 ^ 63
    → length value ≤ 6
    → length written < n
    → append_raw n written value
      ≡ (if ltb (length written + length value) n then ok (written ++ value) else err enospc)
unfolding append_raw
append_raw-exact n written value small short h =
    elim (Bool-cases (ltb (length written + length value) n)) [
      | inl fits ↦ ground arith
      | inr over ↦ ground arith
    ]

escape_loop-exact :
    (n : ℕ) (v written : Bytes)
    → n < 2 ^ 63
    → length written < n
    → escape_loop n written v ≡ (
        if ltb (length written + length (escape_text v)) n
        then ok (written ++ escape_text v)
        else err enospc)
unfolding escape_loop
escape_loop-exact n [] written small h = ground (arith, append-nil written)
escape_loop-exact n (c ∷ v) written small h =
    elim (Bool-cases (ltb (length written + length (escape_chunk c)) n)) [
      | inl fits ↦
          rw (append_raw-exact n written (escape_chunk c) small (length-escape_chunk c) h, fits)
            (escape_loop-exact n v (written ++ escape_chunk c) small
                (omega (arith, length-append written (escape_chunk c), ltb→lt _ _ fits))
              ∙ ground (
                arith,
                length-append written (escape_chunk c),
                length-append (escape_chunk c) (escape_text v),
                append_assoc written (escape_chunk c) (escape_text v),
              ))
      | inr over ↦
          rw (append_raw-exact n written (escape_chunk c) small (length-escape_chunk c) h, over)
            (ground (arith, length-append (escape_chunk c) (escape_text v)))
    ]

-- `cubicle_json_escape` writes the escaped text exactly when it fits in the buffer with its
-- terminator, and otherwise fails with `ENOSPC`; the buffer has at least one byte and, as an
-- object, fewer than 2 ^ 63.
pub json_escape-exact :
    (n : ℕ) (v : Bytes)
    → 0 < n
    → n < 2 ^ 63
    → json_escape (some n) (some v)
      ≡ (if ltb (length (escape_text v)) n then ok (escape_text v) else err enospc)
unfolding json_escape
json_escape-exact n v pos small = ground (arith, escape_loop-exact n v [] small pos)
