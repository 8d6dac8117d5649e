-- ===== src/Json/Builder.antt =====
-- The growing builder. `realloc` is the argument `alloc`: whether it gives a block of that size.
use cubicle.Json.Chunk.{Chunk, copied, quote, escaped, classify, escape_chunk}
use cubicle.Base.Result.{Result, ok, err, einval, eoverflow, enomem, ◌>>=◌}
use cubicle.Base.{
  ℕ, [], Bytes, Bool, ◌++◌, if◌then◌else◌, Option, suc, ◌∷◌, ltb, size_mod, some, ◌*◌, leb, ◌-◌,
  ◌/◌, length, ◌+◌, take, ◌==◌, zero, none,
}

pub record Builder : Type 0 where
  pub text : Bytes
  pub capacity : ℕ

-- `cubicle_json_builder_init`.
abbrev pub empty : Builder
empty = record { text = []; capacity = 0 }

-- `while (length + extra + 1 > capacity)`; 64 doublings pass any `size_t`.
unfoldable pub grow : ℕ → ℕ → ℕ → Result ℕ
grow zero needed capacity = err eoverflow
grow (suc fuel) needed capacity =
    let rest = grow fuel needed (2 * capacity) in
    if leb needed capacity
    then ok capacity
    else if ltb ((size_mod - 1) / 2) capacity
    then err eoverflow
    else rest

abbrev pub grow_fuel : ℕ
grow_fuel = 65

module _ (alloc : ℕ → Bool) where
  unfoldable pub resize : Builder → ℕ → Result Builder
  resize b capacity = if alloc capacity then ok (record b { capacity = capacity }) else err enomem

  -- Whether there is room for `extra` more bytes and the terminator, after growing if need be.
  unfoldable pub reserve : Builder → ℕ → Result Builder
  unfolding grow resize
  reserve b extra =
      if ltb (size_mod - 1 - length b.text - 1) extra
      then err eoverflow
      else if leb (length b.text + extra + 1) b.capacity
      then ok b
      else (do
        capacity ←
            grow grow_fuel (length b.text + extra + 1) (if b.capacity == 0 then 256 else b.capacity)
        resize b capacity)

  unfoldable pub put : Builder → Bytes → Builder
  put b chunk = record b { text = b.text ++ chunk }

  -- `cubicle_json_builder_append`.
  unfoldable pub append : Builder → Bytes → Result Builder
  unfolding reserve put
  append b chunk = do roomy ← reserve b (length chunk); ok (put roomy chunk)

  -- `cubicle_json_builder_append_escaped`; both arms of the `switch` reserve and append.
  unfoldable pub append_escaped : Builder → Bytes → Result Builder
  unfolding append
  append_escaped b [] = ok b
  append_escaped b (c ∷ value) = do grown ← append b (escape_chunk c); append_escaped grown value

  -- `none` is a null text, written as the empty one.
  unfoldable pub append_string : Builder → Option Bytes → Result Builder
  unfolding append append_escaped
  append_string b value = do
    opened ← append b (quote ∷ [])
    body ← append_escaped opened (elim value [ none ↦ [] | some text ↦ text ])
    append body (quote ∷ [])

  -- The chunk of byte `c`, the first of `s`, and how many bytes of the rest went with it.
  unfoldable pub append_chunk : Builder → Bytes → Chunk → Result (Builder × ℕ)
  unfolding append
  append_chunk b s (copied n) = do grown ← append b (take n s); ok (grown, n - 1)
  append_chunk b s (escaped chunk) = do grown ← append b chunk; ok (grown, 0)

  -- The `for` loop; `skip` bytes in front were copied with the byte before them.
  unfoldable pub string_n_loop : Builder → ℕ → Bytes → Result Builder
  unfolding append_chunk
  string_n_loop b skip [] = ok b
  string_n_loop b (suc skip) (c ∷ s) = string_n_loop b skip s
  string_n_loop b zero (c ∷ s) = do
    (grown, skip) ← append_chunk b (c ∷ s) (classify c (c ∷ s))
    string_n_loop grown skip s

  -- `cubicle_json_builder_append_string_n`; a null pointer with a length above 0 is `none`.
  unfoldable pub append_string_n : Builder → Option Bytes → Result Builder
  unfolding append string_n_loop
  append_string_n b none = err einval
  append_string_n b (some value) = do
    opened ← append b (quote ∷ [])
    body ← string_n_loop opened 0 value
    append body (quote ∷ [])
