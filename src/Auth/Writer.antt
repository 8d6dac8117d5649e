-- ===== src/Auth/Writer.antt =====
-- What one append does, and what a chain of appends does: a calculus of writers.
use cubicle.Base.{
  ℕ, ◌+◌, ◌/◌, ◌%◌, ◌^◌, ◌≤◌, ◌<◌, ◌≡◌, ◌∙◌, inl, inr, some, [], ◌∷◌, ◌++◌, leb, ◌==◌,
  if◌then◌else◌, lt→ltb, ge→ltb, leb→le, Bool-cases, length, length-append, append_assoc,
  append-nil, arith, Bytes, size_mod, size_sub,
}
use cubicle.Base.Result.{Result, ok, err, enospc, ◌>>=◌}
use cubicle.Auth.{append_bytes, append_u32, append_u64, append_string, u32_bytes, u32_max}

-- The eight bytes of a `uint64_t`, the highest first.
abbrev pub u64_bytes : ℕ → Bytes
u64_bytes v = u32_bytes (v / 2 ^ 32 % 2 ^ 32) ++ u32_bytes (v % 2 ^ 32)

-- A text behind its length.
abbrev pub string_bytes : Bytes → Bytes
string_bytes text = u32_bytes (length text) ++ text

-- In a buffer of `n` bytes, `m` adds `out` to what is written, or fails because it does not fit.
pub record Writes (n : ℕ) (m : Bytes → Result Bytes) (out : Bytes) : Type 0 where
  pub runs :
      (written : Bytes)
      → length written ≤ n
      → m written
        ≡ (if leb (length written + length out) n then ok (written ++ out) else err enospc)

module _ (n : ℕ) (small : n < size_mod) where
  append_bytes_runs :
      (block written : Bytes)
      → length written ≤ n
      → append_bytes n written block
        ≡ (if leb (length written + length block) n then ok (written ++ block) else err enospc)
  unfolding append_bytes
  append_bytes_runs block written h = elim (Bool-cases (leb (length written + length block) n)) [
    | inl fits ↦ rw (
      ge→ltb (size_sub n (length written)) (length block)
          (omega (arith, leb→le (length written + length block) n fits)),
      fits,
    )
    | inr over ↦ rw (lt→ltb (size_sub n (length written)) (length block) (ground arith), over)
  ]

  pub append_bytes-Writes : (block : Bytes) → Writes n (λ w. append_bytes n w block) block
  append_bytes-Writes block = record { runs = append_bytes_runs block }

  bind_runs :
      {m k : Bytes → Result Bytes} {a b : Bytes}
      → Writes n m a
      → Writes n k b
      → (written : Bytes) → length written ≤ n
      → (m written >>= k) ≡ (
          if leb (length written + length (a ++ b)) n then ok (written ++ (a ++ b)) else err enospc)
  bind_runs {m} {k} {a} {b} ma kb written h =
      elim (Bool-cases (leb (length written + length a) n)) [
        | inl fits ↦
            rw (ma.runs written h, fits)
              (kb.runs (written ++ a) (omega (arith, leb→le _ _ fits, length-append written a))
                ∙ ground
                    (arith, length-append written a, length-append a b, append_assoc written a b))
        | inr over ↦ rw (ma.runs written h, over) (ground (arith, length-append a b))
      ]

  -- Two writers in a row write both blocks, or fail.
  pub bind-Writes :
      {m k : Bytes → Result Bytes} {a b : Bytes}
      → Writes n m a
      → Writes n k b
      → Writes n (λ w. m w >>= k) (a ++ b)
  bind-Writes ma kb = record { runs = bind_runs ma kb }

  pub append_u32-Writes : (v : ℕ) → Writes n (append_u32 n v) (u32_bytes v)
  unfolding append_u32
  append_u32-Writes v = append_bytes-Writes (u32_bytes v)

  pub append_u64-Writes : (v : ℕ) → Writes n (append_u64 n v) (u64_bytes v)
  unfolding append_u64
  append_u64-Writes v = bind-Writes (append_u32-Writes _) (append_u32-Writes _)

  text-Writes :
      (text : Bytes) → Writes n (λ w. if length text == 0 then ok w else append_bytes n w text) text
  text-Writes [] = record { runs = λ w h. ground (arith, append-nil w) }
  text-Writes (c ∷ cs) = record { runs = λ w h. ground (arith, append_bytes_runs (c ∷ cs) w h) }

  pub append_string-Writes :
      (text : Bytes)
      → length text ≤ u32_max
      → Writes n (append_string n (some text)) (string_bytes text)
  unfolding append_string
  append_string-Writes text short = record {
    runs = λ w h.
        rw (ge→ltb u32_max (length text) short)
          ((bind-Writes (append_u32-Writes (length text)) (text-Writes text)).runs w h);
  }

-- A writer at the start of its buffer.
pub Writes-start :
    {n : ℕ} {m : Bytes → Result Bytes} {out : Bytes}
    → Writes n m out
    → m [] ≡ (if leb (length out) n then ok out else err enospc)
Writes-start w = w.runs [] (omega arith) ∙ ground arith
