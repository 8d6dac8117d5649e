-- ===== src/Json/Utf8.antt =====
-- `cubicle_json_builder_append_string_n` against UTF-8: valid text is kept byte for byte, each byte
-- outside a valid sequence becomes the character of that number.
use cubicle.Json.Sequence.{ThreeRow, short_escape-none, short_escape-some, FourRow}
use cubicle.Json.Classify.{IsOrdinary, classify_cases}
use cubicle.Json.RoundTrip.{
  IsPlain, read_short, utf8-ascii, read_unicode, read-IsPlain, sequence_length-IsHigh,
}
use cubicle.Json.Reader.{utf8, read_from, read_string, plain, feed, prepend}
use cubicle.Json.Content.{chunk_skip, text_n, chunk_bytes}
use cubicle.Json.Chunk.{
  short_escape, within, classify, Chunk, escaped, copied, sequence_length, quote,
}
use cubicle.Base.{
  Bytes, ◌++◌, take, ◌≤◌, suc, [], true, ◌∷◌, ℕ, ◌<◌, some, ◌≡◌, arith, zero, append_assoc, sym,
  All, ◌∙◌, refl, ap,
}

-- Well-formed UTF-8, by the rows of the Unicode standard's table 3-7.
pub data IsUtf8 : Bytes → Type 0 where
  done : IsUtf8 []
  one : {a : ℕ} {t : Bytes} → a < 0x80 → IsUtf8 t → IsUtf8 (a ∷ t)
  two :
      {a b : ℕ} {t : Bytes}
      → within 0xc2 0xdf a ≡ true
      → within 0x80 0xbf b ≡ true
      → IsUtf8 t
      → IsUtf8 (a ∷ b ∷ t)
  three :
      {a b c : ℕ} {t : Bytes} (lo hi : ℕ)
      → ThreeRow a lo hi
      → within lo hi b ≡ true
      → within 0x80 0xbf c ≡ true
      → IsUtf8 t
      → IsUtf8 (a ∷ b ∷ c ∷ t)
  four :
      {a b c d : ℕ} {t : Bytes} (lo hi : ℕ)
      → FourRow a lo hi
      → within lo hi b ≡ true
      → within 0x80 0xbf c ≡ true
      → within 0x80 0xbf d ≡ true
      → IsUtf8 t
      → IsUtf8 (a ∷ b ∷ c ∷ d ∷ t)

unfoldable pub repaired : ℕ → Bytes → Chunk → Bytes
repaired c s (copied n) = take n s
repaired c s (escaped chunk) = utf8 c

-- The text that the written string stands for; the first `skip` bytes are part of what came before.
unfoldable pub repair : ℕ → Bytes → Bytes
unfolding repaired
repair skip [] = []
repair (suc skip) (c ∷ s) = repair skip s
repair zero (c ∷ s) =
    let chunk = classify c (c ∷ s) in repaired c (c ∷ s) chunk ++ repair (chunk_skip chunk) s

-- The number of a byte that is escaped reads as that character.
abbrev Reads : ℕ → Bytes → Chunk → Type 0
Reads c s chunk =
    (t : Bytes)
    → read_from plain (chunk_bytes (c ∷ s) chunk ++ t)
      ≡ prepend (repaired c (c ∷ s) chunk) (read_from plain t)

pub short_escape-ascii : (c e : ℕ) → short_escape c ≡ some e → c < 0x80
short_escape-ascii c e h = ground (arith, short_escape-some c h)

All-IsPlain : (xs : Bytes) → All (λ x. 0x80 ≤ x) xs → All IsPlain xs
All-IsPlain [] h = tt
All-IsPlain (x ∷ xs) h = ((omega arith, omega arith, omega arith), All-IsPlain xs h.1)

classify-Reads : (c : ℕ) (s : Bytes) → c < 256 → Reads c s (classify c (c ∷ s))
unfolding repaired
classify-Reads c s byte =
    classify_cases (Reads c s) c (c ∷ s)
      (λ e h t.
        read_short c e t h
        ∙ ap (λ u. prepend u (read_from plain t)) (sym (utf8-ascii c (short_escape-ascii c e h))))
      (λ h t. read_unicode c t byte) (λ h t. read-IsPlain (c ∷ []) t (ordinary h, tt))
      (λ h e t. read_unicode c t byte)
      (λ h e t.
        read-IsPlain (take (sequence_length c (c ∷ s)) (c ∷ s)) t
          (All-IsPlain _ (sequence_length-IsHigh c s h)))
  where
    ordinary : IsOrdinary c → IsPlain c
    ordinary h = (h.1, (short_escape-none c h.0).0, (short_escape-none c h.0).1)

read-text_n_from :
    (s : Bytes) (skip : ℕ) (rest : Bytes)
    → All (λ c. c < 256) s
    → read_from plain (text_n skip s ++ quote ∷ rest) ≡ some (repair skip s, rest)
unfolding text_n repair
read-text_n_from [] zero rest h = unfold read_from feed in refl
read-text_n_from [] (suc skip) rest h = unfold read_from feed in refl
read-text_n_from (c ∷ s) (suc skip) rest h = read-text_n_from s skip rest h.1
read-text_n_from (c ∷ s) zero rest h =
    let chunk = classify c (c ∷ s) in
    ap (read_from plain)
      (append_assoc (chunk_bytes (c ∷ s) chunk) (text_n (chunk_skip chunk) s) (quote ∷ rest))
    ∙ classify-Reads c s h.0 (text_n (chunk_skip chunk) s ++ quote ∷ rest)
    ∙ ap (prepend (repaired c (c ∷ s) chunk)) (read-text_n_from s (chunk_skip chunk) rest h.1)

-- A JSON reader takes the body that `append_string_n` writes, up to its closing quote, for the
-- repaired text, whatever bytes the value holds.
pub read-text_n :
    (v rest : Bytes)
    → All (λ c. c < 256) v
    → read_string (text_n 0 v ++ quote ∷ rest) ≡ some (repair 0 v, rest)
read-text_n v rest h = read-text_n_from v 0 rest h
