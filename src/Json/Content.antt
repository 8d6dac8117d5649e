-- ===== src/Json/Content.antt =====
-- What each append puts behind the builder's text, whatever the capacities on the way.
use cubicle.Json.Room.{escape_text}
use cubicle.Json.Growth.{Fails, Reserved, IsBuilder, reserve-Reserved}
use cubicle.Json.Chunk.{classify, Chunk, copied, escaped, escape_chunk, quote}
use cubicle.Json.Builder.{
  Builder, append, append_escaped, append_chunk, put, string_n_loop, reserve, append_string_n,
  append_string,
}
use cubicle.Base.Result.{bind_assoc, Errno, err, Result, ◌>>=◌, ok}
use cubicle.Base.{
  Bool, subst, ◌≡◌, ◌-◌, take, ◌≤◌, [], ap, ◌++◌, zero, ℕ, ◌+◌, append_assoc, Bytes, arith,
  length-append, sym, length, inl, inr, ◌∙◌, ◌∷◌, suc, append-nil, some,
}

-- The bytes of one chunk of `append_string_n`, and how many bytes after the first it consumes.
abbrev pub chunk_bytes : Bytes → Chunk → Bytes
chunk_bytes s (copied n) = take n s
chunk_bytes s (escaped chunk) = chunk

abbrev pub chunk_skip : Chunk → ℕ
chunk_skip (copied n) = n - 1
chunk_skip (escaped chunk) = 0

-- The body of the JSON string that `append_string_n` writes; the first `skip` bytes are written.
unfoldable pub text_n : ℕ → Bytes → Bytes
text_n skip [] = []
text_n (suc skip) (c ∷ s) = text_n skip s
text_n zero (c ∷ s) =
    let chunk = classify c (c ∷ s) in chunk_bytes (c ∷ s) chunk ++ text_n (chunk_skip chunk) s

-- Success puts exactly `out` behind the text and keeps the builder well-formed; failure is the
-- allocator's, or the size's.
abbrev pub Appends : (ℕ → Bool) → Builder → Bytes → Result Builder → Type 0
Appends alloc b out (ok r) = (r.text ≡ b.text ++ out) × IsBuilder r
Appends alloc b out (err e) = Fails alloc (length b.text + length out) e

Fails-mono : (alloc : ℕ → Bool) (e : Errno) {m n : ℕ} → m ≤ n → Fails alloc m e → Fails alloc n e
Fails-mono alloc e h (inl refused) = inl refused
Fails-mono alloc e h (inr (what, big)) = inr (what, omega arith)

module _ (alloc : ℕ → Bool) where
  put-Appends :
      (b : Builder) (chunk : Bytes) (r : Result Builder)
      → Reserved alloc b (length chunk) r
      → Appends alloc b chunk (r >>= λ roomy. ok (put alloc roomy chunk))
  unfolding put
  put-Appends b chunk (err e) h = h
  put-Appends b chunk (ok r) h = (
    ap (λ t. t ++ chunk) h.0,
    record {
      room = inl (omega (arith, length-append r.text chunk, ap length h.0));
      bounded = h.3.bounded;
    },
  )

  pub append-Appends :
      (b : Builder) (chunk : Bytes) → IsBuilder b → Appends alloc b chunk (append alloc b chunk)
  unfolding append
  append-Appends b chunk v =
      put-Appends b chunk (reserve alloc b (length chunk))
        (reserve-Reserved alloc b (length chunk) v)

  join-Appends :
      (b c : Builder) (first second : Bytes) (r : Result Builder)
      → c.text ≡ b.text ++ first
      → Appends alloc c second r
      → Appends alloc b (first ++ second) r
  join-Appends b c first second (ok r) e h =
      (h.0 ∙ ap (λ t. t ++ second) e ∙ append_assoc b.text first second, h.1)
  join-Appends b c first second (err x) e h =
      Fails-mono alloc x
        (omega (arith, length-append first second, length-append b.text first, ap length e)) h

  -- Two calls in a row.
  bind-Appends :
      (b : Builder) (first second : Bytes) (m : Result Builder) (k : Builder → Result Builder)
      → Appends alloc b first m
      → ((c : Builder) → IsBuilder c → Appends alloc c second (k c))
      → Appends alloc b (first ++ second) (m >>= k)
  bind-Appends b first second (ok c) k h next = join-Appends b c first second (k c) h.0 (next c h.1)
  bind-Appends b first second (err e) k h next =
      Fails-mono alloc e (omega (arith, length-append first second)) h

  pub append_escaped-Appends :
      (v : Bytes) (b : Builder)
      → IsBuilder b
      → Appends alloc b (escape_text v) (append_escaped alloc b v)
  unfolding append_escaped
  append_escaped-Appends [] b h = (sym (append-nil b.text), h)
  append_escaped-Appends (c ∷ v) b h =
      bind-Appends b (escape_chunk c) (escape_text v) (append alloc b (escape_chunk c)) _
        (append-Appends b (escape_chunk c) h) (append_escaped-Appends v)

  chunk-Appends :
      (b : Builder) (s : Bytes) (chunk : Chunk) (out : Bytes) (k : Builder × ℕ → Result Builder)
      → IsBuilder b
      → ((c : Builder) → IsBuilder c → Appends alloc c out (k (c, chunk_skip chunk)))
      → Appends alloc b (chunk_bytes s chunk ++ out) (append_chunk alloc b s chunk >>= k)
  unfolding append_chunk
  chunk-Appends b s (copied n) out k h next =
      subst (Appends alloc b (take n s ++ out)) (bind_assoc (append alloc b (take n s)) _ k) (
        bind-Appends b (take n s) out (append alloc b (take n s)) _ (append-Appends b (take n s) h)
          next)
  chunk-Appends b s (escaped chunk) out k h next =
      subst (Appends alloc b (chunk ++ out)) (bind_assoc (append alloc b chunk) _ k)
        (bind-Appends b chunk out (append alloc b chunk) _ (append-Appends b chunk h) next)

  string_n_loop-Appends :
      (s : Bytes) (skip : ℕ) (b : Builder)
      → IsBuilder b
      → Appends alloc b (text_n skip s) (string_n_loop alloc b skip s)
  unfolding string_n_loop text_n
  string_n_loop-Appends [] zero b h = (sym (append-nil b.text), h)
  string_n_loop-Appends [] (suc skip) b h = (sym (append-nil b.text), h)
  string_n_loop-Appends (c ∷ s) (suc skip) b h = string_n_loop-Appends s skip b h
  string_n_loop-Appends (c ∷ s) zero b h =
      chunk-Appends b (c ∷ s) (classify c (c ∷ s)) (text_n (chunk_skip (classify c (c ∷ s))) s) _ h
        (string_n_loop-Appends s (chunk_skip (classify c (c ∷ s))))

  quoted-Appends :
      (b : Builder) (out : Bytes) (body : Builder → Result Builder)
      → IsBuilder b
      → ((c : Builder) → IsBuilder c → Appends alloc c out (body c))
      → Appends alloc b (quote ∷ (out ++ quote ∷ [])) (
          append alloc b (quote ∷ []) >>= λ opened.
          body opened >>= λ done. append alloc done (quote ∷ []))
  quoted-Appends b out body h inner =
      bind-Appends b (quote ∷ []) (out ++ quote ∷ []) (append alloc b (quote ∷ [])) _
        (append-Appends b (quote ∷ []) h)
        (λ c v.
          bind-Appends c out (quote ∷ []) (body c) _ (inner c v)
            (λ d w. append-Appends d (quote ∷ []) w))

-- `cubicle_json_builder_append_string` on a well-formed builder: success appends the quoted escape of
-- the text, and keeps the builder well-formed; failure is `ENOMEM` from the allocator, or
-- `EOVERFLOW` for a text of 2 ^ 63 bytes or more.
pub append_string-Appends :
    (alloc : ℕ → Bool) (b : Builder) (v : Bytes)
    → IsBuilder b
    → Appends alloc b (quote ∷ (escape_text v ++ quote ∷ [])) (append_string alloc b (some v))
unfolding append_string
append_string-Appends alloc b v h =
    quoted-Appends alloc b (escape_text v) (λ c. append_escaped alloc c v) h
      (append_escaped-Appends alloc v)

-- `cubicle_json_builder_append_string_n` on a well-formed builder: success appends a quote, the
-- chunks of `text_n` and a quote, and keeps the builder well-formed; failure is `ENOMEM` from the
-- allocator, or `EOVERFLOW` for a text of 2 ^ 63 bytes or more.
pub append_string_n-Appends :
    (alloc : ℕ → Bool) (b : Builder) (v : Bytes)
    → IsBuilder b
    → Appends alloc b (quote ∷ (text_n 0 v ++ quote ∷ [])) (append_string_n alloc b (some v))
unfolding append_string_n
append_string_n-Appends alloc b v h =
    quoted-Appends alloc b (text_n 0 v) (λ c. string_n_loop alloc c 0 v) h
      (string_n_loop-Appends alloc v 0)
