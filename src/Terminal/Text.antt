-- ===== src/Terminal/Text.antt =====
-- The text of a cell against UTF-8.
use cubicle.Base.{
  ℕ, Bytes, ◌≤◌, ◌∷◌, ◌+◌, ◌^◌, ◌%◌, arith, true, [], ◌⊎◌, ◌≡◌, ◌/◌, ◌++◌, ◌<◌, inl, ◌==◌,
  Bool-cases, ltb, length, inr, refl, ltb→lt, List, ltb→ge, leb→le, All, false, codes, sym, leb,
  subst, Bool, length-append, if◌then◌else◌,
}
use cubicle.Json.Utf8.{IsUtf8, done, one, two, three, four}
use cubicle.Json.Sequence.{ThreeRow, FourRow}
use cubicle.Json.Chunk.{within}
use cubicle.Terminal.Cell.{append_utf8, append_chars, cell_text_from_vterm, text_size}

-- A Unicode character, or the 0 of a character that is not there.
abbrev pub IsScalar : ℕ → Type 0
IsScalar c = (c < 0xd800) ⊎ ((0xdfff < c) × (c ≤ 0x10ffff))

append-IsUtf8 : {xs ys : Bytes} → IsUtf8 xs → IsUtf8 ys → IsUtf8 (xs ++ ys)
append-IsUtf8 done back = back
append-IsUtf8 (one a front) back = one a (append-IsUtf8 front back)
append-IsUtf8 (two a b front) back = two a b (append-IsUtf8 front back)
append-IsUtf8 (three lo hi row b c front) back = three lo hi row b c (append-IsUtf8 front back)
append-IsUtf8 (four lo hi row b c d front) back = four lo hi row b c d (append-IsUtf8 front back)

continuation : (n : ℕ) → within 0x80 0xbf (0x80 + n % 2 ^ 6) ≡ true
continuation n = ground arith

two-IsUtf8 : (c : ℕ) → 0x80 ≤ c → c < 0x800 → IsUtf8 ((0xc0 + c / 2 ^ 6) ∷ (0x80 + c % 2 ^ 6) ∷ [])
two-IsUtf8 c low high = two (ground arith) (continuation c) done

-- The lead byte and the byte behind it, by the row of the standard's table.
three_row :
    (c : ℕ)
    → 0x800 ≤ c
    → c < 0x10000
    → IsScalar c
    → (lo : ℕ) × (hi : ℕ) × ThreeRow (0xe0 + c / 2 ^ 12) lo hi
      × (within lo hi (0x80 + c / 2 ^ 6 % 2 ^ 6) ≡ true)
three_row c low high scalar = elim (Bool-cases (ltb c 0x1000)) [
  | inl first ↦ (0xa0, 0xbf, inl (ground arith, refl, refl), ground arith)
  | inr behind ↦ elim (Bool-cases (ltb c 0xd000)) [
    | inl middle ↦ (0x80, 0xbf, inr (inr (inl (ground arith), refl, refl)), ground arith)
    | inr later ↦ elim scalar [
      | inl below ↦ (0x80, 0x9f, inr (inl (ground arith, refl, refl)), ground arith)
      | inr above ↦ (0x80, 0xbf, inr (inr (inr (ground arith), refl, refl)), ground arith)
    ]
  ]
]

four_row :
    (c : ℕ)
    → 0x10000 ≤ c
    → c ≤ 0x10ffff
    → (lo : ℕ) × (hi : ℕ) × FourRow (0xf0 + c / 2 ^ 18) lo hi
      × (within lo hi (0x80 + c / 2 ^ 12 % 2 ^ 6) ≡ true)
four_row c low high = elim (Bool-cases (ltb c 0x40000)) [
  | inl first ↦ (0x90, 0xbf, inl (ground arith, refl, refl), ground arith)
  | inr behind ↦ elim (Bool-cases (ltb c 0x100000)) [
    | inl middle ↦ (0x80, 0xbf, inr (inr (ground arith, refl, refl)), ground arith)
    | inr last ↦ (0x80, 0x8f, inr (inl (ground arith, refl, refl)), ground arith)
  ]
]

three-IsUtf8 :
    (c : ℕ)
    → 0x800 ≤ c
    → c < 0x10000
    → IsScalar c
    → IsUtf8 ((0xe0 + c / 2 ^ 12) ∷ (0x80 + c / 2 ^ 6 % 2 ^ 6) ∷ (0x80 + c % 2 ^ 6) ∷ [])
three-IsUtf8 c low high scalar =
    let (lo, hi, row, second) = three_row c low high scalar in
    three lo hi row second (continuation c) done

four-IsUtf8 :
    (c : ℕ)
    → 0x10000 ≤ c
    → c ≤ 0x10ffff
    → IsUtf8 (
        (0xf0 + c / 2 ^ 18)
        ∷ (0x80 + c / 2 ^ 12 % 2 ^ 6)
        ∷ (0x80 + c / 2 ^ 6 % 2 ^ 6)
        ∷ (0x80 + c % 2 ^ 6)
        ∷ [])
four-IsUtf8 c low high =
    let (lo, hi, row, second) = four_row c low high in
    four lo hi row second (continuation (c / 2 ^ 6)) (continuation c) done

-- What one character adds: nothing, or one encoded character, which fits.
abbrev Added : ℕ → Bytes → Bytes → Type 0
Added capacity written next =
    (next ≡ written)
    ⊎ ((encoded : Bytes) × (next ≡ written ++ encoded)
        × IsUtf8 encoded
        × (0 < length encoded)
        × (length next < capacity))

module _ (capacity : ℕ) (written : Bytes) where
  Added-if :
      (b : Bool) {x y : Bytes}
      → (b ≡ true → Added capacity written x)
      → (b ≡ false → Added capacity written y)
      → Added capacity written (if b then x else y)
  Added-if true yes_case no_case = yes_case refl
  Added-if false yes_case no_case = no_case refl

  fitted :
      (encoded : Bytes)
      → IsUtf8 encoded
      → 0 < length encoded
      → Added capacity written
          (if ltb (length written + length encoded) capacity then written ++ encoded else written)
  fitted encoded valid some_byte =
      Added-if (ltb (length written + length encoded) capacity)
        (λ h. inr (
          encoded,
          refl,
          valid,
          some_byte,
          omega (arith, length-append written encoded, ltb→lt _ _ h),
        ))
        (λ h. inl refl)

  append_utf8-Added : (c : ℕ) → IsScalar c → Added capacity written (append_utf8 capacity written c)
  unfolding append_utf8
  append_utf8-Added c scalar =
      Added-if (c == 0) (λ h. inl refl)
        (λ h.
          Added-if (ltb c 0x80)
            (λ ascii. fitted (c ∷ []) (one (ltb→lt _ _ ascii) done) (omega arith))
            (λ h1.
              Added-if (ltb c 0x800)
                (λ h2. fitted _ (two-IsUtf8 c (ltb→ge _ _ h1) (ltb→lt _ _ h2)) (omega arith))
                (λ h2.
                  Added-if (ltb c 0x10000)
                    (λ h3.
                      fitted _ (three-IsUtf8 c (ltb→ge _ _ h2) (ltb→lt _ _ h3) scalar)
                        (omega arith))
                    (λ h3.
                      Added-if (leb c 0x10ffff)
                        (λ h4.
                          fitted _ (four-IsUtf8 c (ltb→ge _ _ h3) (leb→le _ _ h4)) (omega arith))
                        (λ h4. inl refl)))))

-- A text that a cell holds while its characters are appended.
abbrev IsText : Bytes → Type 0
IsText s = IsUtf8 s × (length s < text_size)

append_utf8-IsText :
    (written : Bytes) (c : ℕ)
    → IsScalar c
    → IsText written
    → IsText (append_utf8 text_size written c)
append_utf8-IsText written c scalar valid = elim (append_utf8-Added text_size written c scalar) [
  | inl same ↦ subst IsText (sym same) valid
  | inr (encoded, e, utf8, some_byte, fits) ↦
      (subst IsUtf8 (sym e) (append-IsUtf8 (valid.0) utf8), fits)
]

append_chars-IsText :
    (chars : List ℕ) (written : Bytes)
    → All IsScalar chars
    → IsText written
    → IsText (append_chars written chars)
unfolding append_chars
append_chars-IsText [] written h valid = valid
append_chars-IsText (c ∷ chars) written h valid =
    append_chars-IsText chars (append_utf8 text_size written c) h.1
      (append_utf8-IsText written c h.0 valid)

-- The text of a cell of Unicode characters is well-formed UTF-8, is never empty, and fits the 32 bytes of
-- the cell with its terminator: where the characters do not all fit, one is left out whole.
pub cell_text_from_vterm-IsUtf8 :
    (chars : List ℕ)
    → All IsScalar chars
    → let text = cell_text_from_vterm chars in
      IsUtf8 text × (0 < length text) × (length text < text_size)
unfolding cell_text_from_vterm
cell_text_from_vterm-IsUtf8 chars h =
    held (append_chars [] chars) (append_chars-IsText chars [] h (done, omega arith))
  where
    held :
        (s : Bytes)
        → IsText s
        → let text : Bytes = elim s [ [] ↦ codes " " | c ∷ t ↦ c ∷ t ] in
          IsUtf8 text × (0 < length text) × (length text < text_size)
    held [] valid = (one (omega arith) done, omega arith, omega arith)
    held (c ∷ t) valid = (valid.0, omega arith, valid.1)
