-- ===== src/Json/HeldBack.antt =====
-- What `cubicle_json_safe_utf8_prefix_length` keeps of a chunk of text for the next one.
use cubicle.Json.Chunk.{within, two_follow, three_follow, one_follows}
use cubicle.Json.Sequence.{ThreeRow, FourRow}
use cubicle.Json.Utf8.{IsUtf8, done, one, two, three, four}
use cubicle.Json.Lead.{lead-two, lead-three, lead-four}
use cubicle.Json.Prefix.{
  advance, advance_two, advance_three, advance_four, safe_loop, safe_utf8_prefix_length,
}
use cubicle.Base.{
  ℕ, Bytes, ◌≡◌, inl, inr, true, ◌∷◌, none, arith, ◌+◌, ◌∙◌, suc, ◌≤◌, refl, some, length, ◌++◌,
  ◌<◌, ◌-◌, [],
}

-- The end of a chunk of text: nothing, or the first bytes of a character that is cut there; and how many
-- of them are sent at once, by the rows of the Unicode standard's table 3-7.
pub data IsCut : Bytes → ℕ → Type 0 where
  whole : IsCut [] 0
  lead_of_two : {a : ℕ} → within 0xc2 0xdf a ≡ true → IsCut (a ∷ []) 0
  lead_of_three : {a : ℕ} (lo hi : ℕ) → ThreeRow a lo hi → IsCut (a ∷ []) 1
  two_of_three :
      {a b : ℕ} (lo hi : ℕ) → ThreeRow a lo hi → within lo hi b ≡ true → IsCut (a ∷ b ∷ []) 0
  lead_of_four : {a : ℕ} (lo hi : ℕ) → FourRow a lo hi → IsCut (a ∷ []) 1
  two_of_four :
      {a b : ℕ} (lo hi : ℕ) → FourRow a lo hi → within lo hi b ≡ true → IsCut (a ∷ b ∷ []) 0
  three_of_four :
      {a b c : ℕ} (lo hi : ℕ)
      → FourRow a lo hi
      → within lo hi b ≡ true
      → within 0x80 0xbf c ≡ true
      → IsCut (a ∷ b ∷ c ∷ []) 0

three_high : (a lo hi : ℕ) → ThreeRow a lo hi → 0x80 ≤ a
three_high a lo hi (inl r) = omega arith
three_high a lo hi (inr (inl r)) = omega arith
three_high a lo hi (inr (inr (inl r, r1, r2))) = ground arith
three_high a lo hi (inr (inr (inr r, r1, r2))) = ground arith

four_high : (a lo hi : ℕ) → FourRow a lo hi → 0x80 ≤ a
four_high a lo hi (inl r) = omega arith
four_high a lo hi (inr (inl r)) = omega arith
four_high a lo hi (inr (inr r)) = ground arith

-- The scan at a character that is there as a whole.
advance-one : (a : ℕ) (s : Bytes) → a < 0x80 → advance a s ≡ some 1
unfolding advance
advance-one a s h = ground arith

advance-two :
    (a b : ℕ) (t : Bytes)
    → within 0xc2 0xdf a ≡ true
    → within 0x80 0xbf b ≡ true
    → advance a (a ∷ b ∷ t) ≡ some 2
unfolding advance_two one_follows
advance-two a b t ha hb = lead-two a (a ∷ b ∷ t) (ground arith) ha ∙ ground arith

advance-three :
    (a b c lo hi : ℕ) (t : Bytes)
    → ThreeRow a lo hi
    → within lo hi b ≡ true
    → within 0x80 0xbf c ≡ true
    → advance a (a ∷ b ∷ c ∷ t) ≡ some 3
unfolding advance_three two_follow
advance-three a b c lo hi t row hb hc =
    lead-three a (a ∷ b ∷ c ∷ t) (three_high a lo hi row) lo hi row ∙ ground arith

advance-four :
    (a b c d lo hi : ℕ) (t : Bytes)
    → FourRow a lo hi
    → within lo hi b ≡ true
    → within 0x80 0xbf c ≡ true
    → within 0x80 0xbf d ≡ true
    → advance a (a ∷ b ∷ c ∷ d ∷ t) ≡ some 4
unfolding advance_four three_follow
advance-four a b c d lo hi t row hb hc hd =
    lead-four a (a ∷ b ∷ c ∷ d ∷ t) (four_high a lo hi row) lo hi row ∙ ground arith

safe_loop-none :
    (safe a : ℕ) (s : Bytes) → advance a (a ∷ s) ≡ none → safe_loop safe 0 (a ∷ s) ≡ safe
unfolding safe_loop
safe_loop-none safe a s h = rw (safe_loop, h) refl

safe_loop-some :
    (safe a n : ℕ) (s : Bytes)
    → advance a (a ∷ s) ≡ some n
    → safe_loop safe 0 (a ∷ s) ≡ safe_loop (safe + n) (n - 1) s
unfolding safe_loop
safe_loop-some safe a n s h = rw (safe_loop, h) refl

safe_loop-skip : (safe n c : ℕ) (s : Bytes) → safe_loop safe (suc n) (c ∷ s) ≡ safe_loop safe n s
unfolding safe_loop
safe_loop-skip safe n c s = refl

safe_loop-nil : (safe n : ℕ) → safe_loop safe n [] ≡ safe
unfolding safe_loop
safe_loop-nil safe n = refl

-- The scan at the end of a chunk.
safe_loop-cut : (safe sent : ℕ) (t : Bytes) → IsCut t sent → safe_loop safe 0 t ≡ safe + sent
unfolding advance_two advance_three advance_four
safe_loop-cut safe sent t whole = safe_loop-nil safe 0 ∙ omega arith
safe_loop-cut safe sent t (lead_of_two {a} h) =
    safe_loop-none safe a [] (lead-two a (a ∷ []) (ground arith) h) ∙ omega arith
safe_loop-cut safe sent t (lead_of_three {a} lo hi row) =
    safe_loop-some safe a 1 [] (lead-three a (a ∷ []) (three_high a lo hi row) lo hi row)
    ∙ safe_loop-nil (safe + 1) 0
safe_loop-cut safe sent t (two_of_three {a} {b} lo hi row h) =
    safe_loop-none safe a (b ∷ [])
      (lead-three a (a ∷ b ∷ []) (three_high a lo hi row) lo hi row ∙ ground arith)
    ∙ omega arith
safe_loop-cut safe sent t (lead_of_four {a} lo hi row) =
    safe_loop-some safe a 1 [] (lead-four a (a ∷ []) (four_high a lo hi row) lo hi row)
    ∙ safe_loop-nil (safe + 1) 0
safe_loop-cut safe sent t (two_of_four {a} {b} lo hi row h) =
    safe_loop-none safe a (b ∷ [])
      (lead-four a (a ∷ b ∷ []) (four_high a lo hi row) lo hi row ∙ ground arith)
    ∙ omega arith
safe_loop-cut safe sent t (three_of_four {a} {b} {c} lo hi row h k) =
    safe_loop-none safe a (b ∷ c ∷ [])
      (lead-four a (a ∷ b ∷ c ∷ []) (four_high a lo hi row) lo hi row ∙ ground arith)
    ∙ omega arith

safe_loop-text :
    (safe sent : ℕ) (p t : Bytes)
    → IsUtf8 p
    → IsCut t sent
    → safe_loop safe 0 (p ++ t) ≡ safe + length p + sent
safe_loop-text safe sent p t done cut = safe_loop-cut safe sent t cut ∙ omega arith
safe_loop-text safe sent p t (one {a} {t = s} h text) cut =
    safe_loop-some safe a 1 (s ++ t) (advance-one a (a ∷ s ++ t) h)
    ∙ safe_loop-text (safe + 1) sent s t text cut
    ∙ omega arith
safe_loop-text safe sent p t (two {a} {b} {t = s} ha hb text) cut =
    safe_loop-some safe a 2 (b ∷ s ++ t) (advance-two a b (s ++ t) ha hb)
    ∙ safe_loop-skip (safe + 2) 0 b (s ++ t)
    ∙ safe_loop-text (safe + 2) sent s t text cut
    ∙ omega arith
safe_loop-text safe sent p t (three {a} {b} {c} {t = s} lo hi row hb hc text) cut =
    safe_loop-some safe a 3 (b ∷ c ∷ s ++ t) (advance-three a b c lo hi (s ++ t) row hb hc)
    ∙ safe_loop-skip (safe + 3) 1 b (c ∷ s ++ t)
    ∙ safe_loop-skip (safe + 3) 0 c (s ++ t)
    ∙ safe_loop-text (safe + 3) sent s t text cut
    ∙ omega arith
safe_loop-text safe sent p t (four {a} {b} {c} {d} {t = s} lo hi row hb hc hd text) cut =
    safe_loop-some safe a 4 (b ∷ c ∷ d ∷ s ++ t) (advance-four a b c d lo hi (s ++ t) row hb hc hd)
    ∙ safe_loop-skip (safe + 4) 2 b (c ∷ d ∷ s ++ t)
    ∙ safe_loop-skip (safe + 4) 1 c (d ∷ s ++ t)
    ∙ safe_loop-skip (safe + 4) 0 d (s ++ t)
    ∙ safe_loop-text (safe + 4) sent s t text cut
    ∙ omega arith

-- Of well-formed text that a chunk cuts in or behind a character, exactly the whole characters can be sent,
-- and the first bytes of the one that is cut are kept; but where just the lead byte of a character of
-- three or four bytes is there, this byte is sent as well.
pub safe_utf8_prefix_length-cut :
    (p t : Bytes) (sent : ℕ)
    → IsUtf8 p
    → IsCut t sent
    → safe_utf8_prefix_length (some (p ++ t)) ≡ length p + sent
unfolding safe_utf8_prefix_length
safe_utf8_prefix_length-cut p t sent text cut = safe_loop-text 0 sent p t text cut ∙ omega arith
