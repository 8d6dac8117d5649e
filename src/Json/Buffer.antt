-- ===== src/Json/Buffer.antt =====
-- Escaping into a buffer of fixed size, and the quoted string of the RPC writers.
use cubicle.Json.Chunk.{quote, escape_chunk}
use cubicle.Base.Result.{Result, ok, err, enospc, ◌>>=◌, einval}
use cubicle.Base.{Option, ℕ, Bytes, if◌then◌else◌, leb, ◌∷◌, size_add, length, ◌++◌, ◌==◌, some, []}

-- `append_raw`: the buffer's size and the bytes before `*used`. The terminator needs one byte more.
unfoldable pub append_raw : ℕ → Bytes → Bytes → Result Bytes
append_raw buffer_size written value =
    if leb buffer_size (size_add (length written) (length value))
    then err enospc
    else ok (written ++ value)

unfoldable pub escape_loop : ℕ → Bytes → Bytes → Result Bytes
escape_loop buffer_size written [] = ok written
escape_loop buffer_size written (c ∷ value) = do
  grown ← append_raw buffer_size written (escape_chunk c)
  escape_loop buffer_size grown value

-- `none` is a null buffer or a null text.
unfoldable pub json_escape : Option ℕ → Option Bytes → Result Bytes
unfolding escape_loop append_raw
json_escape (some buffer_size) (some value) =
    if buffer_size == 0 then err einval else escape_loop buffer_size [] value
json_escape _ _ = err einval

-- `append_json_string`, with its buffer `escaped[1024]`.
unfoldable pub append_json_string : ℕ → Bytes → Option Bytes → Result Bytes
unfolding json_escape append_raw
append_json_string buffer_size written value = do
  escaped ← json_escape (some 1024) value
  opened ← append_raw buffer_size written (quote ∷ [])
  body ← append_raw buffer_size opened escaped
  append_raw buffer_size body (quote ∷ [])
