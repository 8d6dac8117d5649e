-- ===== src/Json/RoundTrip.antt =====
-- What a reader of JSON makes of the strings that the program writes.
use cubicle.Json.Sequence.{
  short_escape-none, sequence_length_cases, ThreeRow, short_escape-some, FourRow, one_follows-split,
  two_follow-split, three_follow-split,
}
use cubicle.Json.Room.{escape_text}
use cubicle.Json.Chunk.{
  hex_digit, unicode_escape, sequence_length, quote, short_escape, escape_chunk, backslash,
  two_follow, one_follows, three_follow,
}
use cubicle.Json.Reader.{
  read_from, hex_value, feed, plain, prepend, utf8, goes, read_string, after_backslash,
}
use cubicle.Base.{
  ◌++◌, ℕ, Bytes, ◌≡◌, arith, ◌<◌, some, false, ◌*◌, none, leb, ◌/◌, refl, ◌%◌, append_assoc, ◌+◌,
  [], Option, inr, Bool-cases, ap, ltb→lt, ◌≤◌, sym, ◌≢◌, Option-cases, ◌∷◌, inl, All, ltb, ◌∙◌,
  ltb→ge, take, true,
}

hex_value-hex_digit : (d : ℕ) → d < 16 → hex_value (hex_digit d) ≡ some d
unfolding hex_value hex_digit
hex_value-hex_digit d h = ground arith

hex_zero : hex_value b'0' ≡ some 0
unfolding hex_value
hex_zero = refl

prepend-nil : (r : Option (Bytes × Bytes)) → prepend [] r ≡ r
prepend-nil none = refl
prepend-nil (some (t, s)) = refl

pub prepend-append :
    (a b : Bytes) (r : Option (Bytes × Bytes)) → prepend a (prepend b r) ≡ prepend (a ++ b) r
prepend-append a b none = refl
prepend-append a b (some (t, s)) = rw append_assoc

-- A `\u` escape of a byte reads as the UTF-8 bytes of that code point.
pub read_unicode :
    (c : ℕ) (s : Bytes)
    → c < 256
    → read_from plain (unicode_escape c ++ s) ≡ prepend (utf8 c) (read_from plain s)
unfolding read_from feed unicode_escape
read_unicode c s h =
    rw
      (
        hex_zero,
        hex_zero,
        hex_value-hex_digit (c / 16) (omega arith),
        hex_value-hex_digit (c % 16) (omega arith),
        number,
        plane,
      )
      (simp prepend-nil)
  where
    number : ((0 * 16 + 0) * 16 + c / 16) * 16 + c % 16 ≡ c
    number = omega arith

    plane : leb 0xd800 c ≡ false
    plane = ground arith

feed_short : (c e : ℕ) → short_escape c ≡ some e → feed after_backslash e ≡ goes plain (c ∷ [])
unfolding feed
feed_short c e h = ground (arith, short_escape-some c h)

pub read_short :
    (c e : ℕ) (s : Bytes)
    → short_escape c ≡ some e
    → read_from plain (backslash ∷ e ∷ s) ≡ prepend (c ∷ []) (read_from plain s)
unfolding read_from
read_short c e s h = rw (read_from, feed_backslash, feed_short c e h) (simp prepend-nil)
  where
    feed_backslash : feed plain backslash ≡ goes after_backslash []
    feed_backslash = unfold feed in refl

-- The bytes that stand for themselves in a JSON string.
abbrev pub IsPlain : ℕ → Type 0
IsPlain c = (0x20 ≤ c) × (c ≢ quote) × (c ≢ backslash)

feed-IsPlain : (c : ℕ) → IsPlain c → feed plain c ≡ goes plain (c ∷ [])
unfolding feed
feed-IsPlain c h = ground arith

pub read-IsPlain :
    (xs s : Bytes) → All IsPlain xs → read_from plain (xs ++ s) ≡ prepend xs (read_from plain s)
unfolding read_from
read-IsPlain [] s h = sym (prepend-nil (read_from plain s))
read-IsPlain (x ∷ xs) s h =
    rw (read_from, feed-IsPlain x h.0, read-IsPlain xs s h.1)
      (prepend-append (x ∷ []) xs (read_from plain s))

pub utf8-ascii : (c : ℕ) → c < 0x80 → utf8 c ≡ c ∷ []
unfolding utf8
utf8-ascii c h = ground arith

-- One chunk of an escaped C string reads as its byte.
read-escape_chunk :
    (c : ℕ) (s : Bytes)
    → c < 256
    → read_from plain (escape_chunk c ++ s) ≡ prepend (c ∷ []) (read_from plain s)
unfolding escape_chunk
read-escape_chunk c s h = elim (Option-cases (short_escape c)) [
  | inr (e, special) ↦ rw (special, escape_chunk) (read_short c e s special)
  | inl ordinary ↦
      rw (ordinary, escape_chunk)
        (elim (Bool-cases (ltb c 0x20)) [
          | inl control ↦ rw (control) (
              read_unicode c s h
              ∙ ap (λ t. prepend t (read_from plain s))
                  (utf8-ascii c (omega (arith, ltb→lt c 0x20 control))))
          | inr printable ↦ rw printable (
              read-IsPlain (c ∷ []) s (
                (
                  ltb→ge c 0x20 printable,
                  (short_escape-none c ordinary).0,
                  (short_escape-none c ordinary).1,
                ),
                tt,
              ))
        ])
]

-- A JSON reader gets back every C string from its escape, and what follows the closing quote.
pub read-escape_text :
    (v rest : Bytes)
    → All (λ c. c < 256) v
    → read_string (escape_text v ++ quote ∷ rest) ≡ some (v, rest)
read-escape_text [] rest h = unfold read_from feed in refl
read-escape_text (c ∷ v) rest h = rw append_assoc (
    read-escape_chunk c (escape_text v ++ quote ∷ rest) h.0
    ∙ ap (prepend (c ∷ [])) (read-escape_text v rest h.1))

module _ (c : ℕ) (s : Bytes) (high : 0x80 ≤ c) where
  abbrev pub IsHigh : ℕ → Type 0
  IsHigh n = All (λ x. 0x80 ≤ x) (take n (c ∷ s))

  one_follows-IsHigh : one_follows (c ∷ s) ≡ true → IsHigh 2
  one_follows-IsHigh f = let (x, t, e, hx) = one_follows-split c s f in rw e (ground arith)

  two_follow-IsHigh : (lo hi : ℕ) → ThreeRow c lo hi → two_follow (c ∷ s) lo hi ≡ true → IsHigh 3
  two_follow-IsHigh lo hi row f =
      let (x, y, t, e, hx, hy) = two_follow-split c lo hi s f in rw e (ground arith)

  three_follow-IsHigh : (lo hi : ℕ) → FourRow c lo hi → three_follow (c ∷ s) lo hi ≡ true → IsHigh 4
  three_follow-IsHigh lo hi row f =
      let (x, y, z, t, e, hx, hy, hz) = three_follow-split c lo hi s f in rw e (ground arith)

  -- A sequence that is copied holds bytes above 0x7f only.
  pub sequence_length-IsHigh : IsHigh (sequence_length c (c ∷ s))
  sequence_length-IsHigh =
      sequence_length_cases IsHigh c (c ∷ s) tt (λ _. one_follows-IsHigh) two_follow-IsHigh
        three_follow-IsHigh
