-- ===== src/Json/Valid.antt =====
-- The repaired text is well-formed UTF-8, and text that was well-formed is kept.
use cubicle.Json.Sequence.{
  ThreeRow, FourRow, one_follows-split, sequence_length-two, sequence_length_cases,
  three_follow-split, sequence_length-three, two_follow-split, sequence_length-four,
}
use cubicle.Json.RoundTrip.{utf8-ascii}
use cubicle.Json.Content.{chunk_skip, text_n}
use cubicle.Json.Classify.{
  classify_cases, classify-special, classify-high, classify-control, classify-plain,
}
use cubicle.Json.Reader.{utf8, read_string}
use cubicle.Json.Utf8.{repair, repaired, IsUtf8, done, one, two, three, four, read-text_n}
use cubicle.Json.Chunk.{
  Chunk, sequence_length, within, short_escape, classify, two_follow, copied, one_follows,
  three_follow, quote,
}
use cubicle.Base.{
  ◌∙◌, ◌++◌, refl, ◌≤◌, ltb→lt, ◌<◌, ℕ, take, ◌-◌, zero, ◌⊎◌, Bool-cases, true, suc, ap, [], ◌∷◌,
  inr, ltb, inl, ◌≡◌, ltb→ge, All, lt→ltb, arith, Option-cases, Bytes, some,
}

abbrev Begins : ℕ → Bytes → Chunk → Type 0
Begins c s chunk = (t : Bytes) → IsUtf8 t → IsUtf8 (repaired c (c ∷ s) chunk ++ t)

utf8-Begins : (c : ℕ) (t : Bytes) → c < 256 → IsUtf8 t → IsUtf8 (utf8 c ++ t)
unfolding utf8
utf8-Begins c t byte v = elim (Bool-cases (ltb c 0x80)) [
  | inl ascii ↦ rw ascii (one (ltb→lt c 0x80 ascii) v)
  | inr high ↦ rw (high, lt→ltb c 0x800 (omega arith)) (two (ground arith) (ground arith) v)
]

module _ (c : ℕ) (s t : Bytes) (v : IsUtf8 t) where
  abbrev TakenIsUtf8 : ℕ → Type 0
  TakenIsUtf8 n = IsUtf8 (take n (c ∷ s) ++ t)

  two-taken : within 0xc2 0xdf c ≡ true → one_follows (c ∷ s) ≡ true → TakenIsUtf8 2
  two-taken lead f = let (x, r, e, hx) = one_follows-split c s f in rw e (two lead hx v)

  three-taken : (lo hi : ℕ) → ThreeRow c lo hi → two_follow (c ∷ s) lo hi ≡ true → TakenIsUtf8 3
  three-taken lo hi row f =
      let (x, y, r, e, hx, hy) = two_follow-split c lo hi s f in rw e (three lo hi row hx hy v)

  four-taken : (lo hi : ℕ) → FourRow c lo hi → three_follow (c ∷ s) lo hi ≡ true → TakenIsUtf8 4
  four-taken lo hi row f =
      let (x, y, z, r, e, hx, hy, hz) = three_follow-split c lo hi s f in
      rw e (four lo hi row hx hy hz v)

  sequence_length-taken : TakenIsUtf8 (sequence_length c (c ∷ s))
  sequence_length-taken =
      sequence_length_cases TakenIsUtf8 c (c ∷ s) v two-taken three-taken four-taken

classify-Begins : (c : ℕ) (s : Bytes) → c < 256 → Begins c s (classify c (c ∷ s))
unfolding repaired
classify-Begins c s byte =
    classify_cases (Begins c s) c (c ∷ s) (λ e h t v. utf8-Begins c t byte v)
      (λ h t v. utf8-Begins c t byte v) (λ h t v. one h.2 v) (λ h e t v. utf8-Begins c t byte v)
      (λ h e t v. sequence_length-taken c s t v)

-- Whatever bytes the value holds, the text that a reader gets is well-formed UTF-8.
pub repair-IsUtf8 : (v : Bytes) (skip : ℕ) → All (λ c. c < 256) v → IsUtf8 (repair skip v)
unfolding repair
repair-IsUtf8 [] zero h = done
repair-IsUtf8 [] (suc skip) h = done
repair-IsUtf8 (c ∷ v) (suc skip) h = repair-IsUtf8 v skip h.1
repair-IsUtf8 (c ∷ v) zero h =
    classify-Begins c v h.0 (repair (chunk_skip (classify c (c ∷ v))) v)
      (repair-IsUtf8 v (chunk_skip (classify c (c ∷ v))) h.1)

-- Each kind of character is one chunk.
repair-copied :
    (c n : ℕ) (s : Bytes)
    → classify c (c ∷ s) ≡ copied n
    → repair zero (c ∷ s) ≡ take n (c ∷ s) ++ repair (n - 1) s
unfolding repair repaired
repair-copied c n s e = rw (e)

classify-length :
    (c n : ℕ) (s : Bytes) → 0x80 ≤ c → sequence_length c s ≡ suc n → classify c s ≡ copied (suc n)
classify-length c n s h e = rw (classify-high c s h, e) (ground arith)

repair-ascii : (a : ℕ) (t : Bytes) → a < 0x80 → repair zero (a ∷ t) ≡ a ∷ repair zero t
unfolding repair repaired
repair-ascii a t h = elim (Option-cases (short_escape a)) [
  | inr (e, special) ↦ rw (classify-special a e (a ∷ t) special, utf8-ascii a h)
  | inl ordinary ↦ elim (Bool-cases (ltb a 0x20)) [
    | inl low ↦ rw (classify-control a (a ∷ t) ordinary (ltb→lt a 0x20 low), utf8-ascii a h)
    | inr not_low ↦ rw (classify-plain a (a ∷ t) ordinary (ltb→ge a 0x20 not_low) h)
  ]
]

repair_skip : (k c : ℕ) (s : Bytes) → repair (suc k) (c ∷ s) ≡ repair k s
unfolding repair
repair_skip k c s = refl

one_follows-join :
    (a b : ℕ) (t : Bytes) → within 0x80 0xbf b ≡ true → one_follows (a ∷ b ∷ t) ≡ true
unfolding one_follows
one_follows-join a b t h = h

two_follow-join :
    (a b c lo hi : ℕ) (t : Bytes)
    → within lo hi b ≡ true
    → within 0x80 0xbf c ≡ true
    → two_follow (a ∷ b ∷ c ∷ t) lo hi ≡ true
unfolding two_follow
two_follow-join a b c lo hi t hb hc = ground arith

three_follow-join :
    (a b c d lo hi : ℕ) (t : Bytes)
    → within lo hi b ≡ true
    → within 0x80 0xbf c ≡ true
    → within 0x80 0xbf d ≡ true
    → three_follow (a ∷ b ∷ c ∷ d ∷ t) lo hi ≡ true
unfolding three_follow
three_follow-join a b c d lo hi t hb hc hd = ground arith

row-high : (a lo hi : ℕ) → ThreeRow a lo hi ⊎ FourRow a lo hi → 0x80 ≤ a
row-high a lo hi row = ground arith

-- Well-formed text is kept byte for byte.
pub repair-id : {v : Bytes} → IsUtf8 v → repair zero v ≡ v
repair-id done = unfold repair in refl
repair-id (one {a} {t} h u) = repair-ascii a t h ∙ ap (◌∷◌ a) (repair-id u)
repair-id (two {a} {b} {t} ha hb u) =
    repair-copied a 2 (b ∷ t) (
      classify-length a 1 (a ∷ b ∷ t) (ground arith)
        (sequence_length-two a _ ha (one_follows-join a b t hb)))
    ∙ ap (λ r. a ∷ b ∷ r) (repair_skip 0 b t ∙ repair-id u)
repair-id (three {a} {b} {c} {t} lo hi row hb hc u) =
    let size = sequence_length-three a lo hi _ row (two_follow-join a b c lo hi t hb hc) in
    let high = row-high a lo hi (inl row) in
    repair-copied a 3 (b ∷ c ∷ t) (classify-length a 2 (a ∷ b ∷ c ∷ t) high size)
    ∙ ap (λ r. a ∷ b ∷ c ∷ r) (repair_skip 1 b (c ∷ t) ∙ repair_skip 0 c t ∙ repair-id u)
repair-id (four {a} {b} {c} {d} {t} lo hi row hb hc hd u) =
    let size = sequence_length-four a lo hi _ row (three_follow-join a b c d lo hi t hb hc hd) in
    let high = row-high a lo hi (inr row) in
    repair-copied a 4 (b ∷ c ∷ d ∷ t) (classify-length a 3 (a ∷ b ∷ c ∷ d ∷ t) high size)
    ∙ ap (λ r. a ∷ b ∷ c ∷ d ∷ r)
        (repair_skip 2 b (c ∷ d ∷ t) ∙ repair_skip 1 c (d ∷ t) ∙ repair_skip 0 d t ∙ repair-id u)

-- A reader of the string that `append_string_n` writes for well-formed text gets that very text,
-- and what follows the closing quote.
pub read-text_n_valid :
    (v rest : Bytes)
    → All (λ c. c < 256) v
    → IsUtf8 v
    → read_string (text_n 0 v ++ quote ∷ rest) ≡ some (v, rest)
read-text_n_valid v rest h u = rw (read-text_n v rest h, repair-id u)
