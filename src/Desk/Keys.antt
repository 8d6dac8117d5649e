-- ===== src/Desk/Keys.antt =====
-- Which bytes of the input are a key of the scroll mode, apart from the code that reads them.
use cubicle.Desk.Input.{
  ScrollKey, no_input, need_more, consumed, parse_scroll_mode_key, scroll_sequence, until, is_final,
  cursor_command, params_command,
}
use cubicle.Base.{
  ℕ, Bytes, inl, codes, ap, ◌∷◌, true, sym, ◌||◌, arith, ◌<◌, ◌⊎◌, [], not, length, refl, inr, ◌++◌,
  if◌then◌else◌, ◌+◌, none, Bool-cases, Bool, length-append, some, ◌≡◌, ◌≤◌, ◌∙◌, append_assoc,
  false, ◌==◌, Option, All, ◌≢◌, subst,
}

-- The bytes that end a sequence, and those that do not.
abbrev pub IsEnd : ℕ → Type 0
IsEnd c = (0x40 ≤ c) × (c ≤ 0x7e)

abbrev pub IsParameter : ℕ → Type 0
IsParameter c = (c < 0x40) ⊎ (0x7e < c)

-- A whole key, before the bytes that come after it: a byte; the escape key, which the byte after it shows;
-- `ESC O` and a byte; `ESC [`, parameters and the end.
pub data IsKey : Bytes → Bytes → Type 0 where
  one_byte : {c : ℕ} {rest : Bytes} → c ≢ 27 → IsKey (c ∷ []) rest
  escape : {d : ℕ} {rest : Bytes} → d ≢ b'O' → d ≢ b'[' → IsKey (27 ∷ []) (d ∷ rest)
  cursor : {final : ℕ} {rest : Bytes} → IsKey (27 ∷ b'O' ∷ final ∷ []) rest
  sequence :
      (params : Bytes) (final : ℕ) {rest : Bytes}
      → All IsParameter params
      → IsEnd final
      → IsKey (27 ∷ b'[' ∷ params ++ final ∷ []) rest

-- The first bytes of a key, which may go on.
pub data IsStart : Bytes → Type 0 where
  escape_alone : IsStart (27 ∷ [])
  cursor_start : IsStart (27 ∷ b'O' ∷ [])
  sequence_start : {params : Bytes} → All IsParameter params → IsStart (27 ∷ b'[' ∷ params)

-- What is read of an input.
unfoldable pub Reads : Bytes → ScrollKey → Type 0
Reads input no_input = input ≡ []
Reads input need_more = IsStart input
Reads input (consumed command used) =
    (key : Bytes) × (rest : Bytes) × (input ≡ key ++ rest) × IsKey key rest × (used ≡ length key)

Finds : Bytes → Option (Bytes × ℕ) → Type 0
Finds input none = All IsParameter input
Finds input (some (params, final)) =
    (rest : Bytes) × (input ≡ params ++ (final ∷ rest)) × All IsParameter params × IsEnd final

until-Finds : (input : Bytes) → Finds input (until is_final input)
unfolding until Finds
until-Finds [] = tt
until-Finds (c ∷ input) = here (Bool-cases (is_final c)) (until is_final input) (until-Finds input)
  where
    here :
        ((is_final c ≡ true) ⊎ (is_final c ≡ false))
        → (later : Option (Bytes × ℕ)) → Finds input later
        → let found : Option (Bytes × ℕ) =
            if is_final c
            then some ([], c)
            else elim later [ none ↦ none | some (front, final) ↦ some (c ∷ front, final) ] in
          Finds (c ∷ input) found
    here (inl ends) later h = rw ends (input, refl, tt, ground arith)
    here (inr goes_on) none h = rw goes_on (ground arith, h)
    here (inr goes_on) (some (front, final)) (rest, e, params, end) =
        rw goes_on (rest, ap (λ s. c ∷ s) e, (ground arith, params), end)

scroll_sequence-Reads : (rest : Bytes) → Reads (27 ∷ b'[' ∷ rest) (scroll_sequence rest)
unfolding scroll_sequence Finds Reads
scroll_sequence-Reads rest = by_found (until is_final rest) (until-Finds rest)
  where
    by_found :
        (o : Option (Bytes × ℕ))
        → Finds rest o
        → let found : ScrollKey = elim o [
          | none ↦ need_more
          | some (params, final) ↦
              consumed
                (if final == b'~' then params_command params else cursor_command final)
                (length params + 3)
        ] in
          Reads (27 ∷ b'[' ∷ rest) found
    by_found none h = sequence_start h
    by_found (some (params, final)) (after, e, h, end) = (
      27 ∷ b'[' ∷ params ++ final ∷ [],
      after,
      ap (λ s. 27 ∷ b'[' ∷ s) (e ∙ sym (append_assoc params (final ∷ []) after)),
      sequence params final h end,
      omega (arith, length-append params (final ∷ [])),
    )

Reads-if :
    (input : Bytes) (b : Bool) (x y : ScrollKey)
    → (b ≡ true → Reads input x)
    → (b ≡ false → Reads input y)
    → Reads input (if b then x else y)
Reads-if input true x y h k = h refl
Reads-if input false x y h k = k refl

-- In the scroll mode, the bytes that are taken from an input are exactly one whole key in front: a byte that
-- is not an escape; an escape whose next byte is neither `O` nor `[`; `ESC O` and one byte; `ESC [` up to
-- the first byte from `@` to `~`. More bytes are asked for exactly when all there are begin such a key,
-- and nothing is read exactly when there are none.
pub parse_scroll_mode_key-Reads : (input : Bytes) → Reads input (parse_scroll_mode_key input)
unfolding parse_scroll_mode_key Reads
parse_scroll_mode_key-Reads [] = refl
parse_scroll_mode_key-Reads (c ∷ input) =
    Reads-if (c ∷ input) (c == b'q' || c == b's') _ _
      (λ leaves. (c ∷ [], input, refl, one_byte (λ e. ground arith), refl))
      (λ stays.
        Reads-if (c ∷ input) (not (c == 27)) _ _
          (λ plain. (c ∷ [], input, refl, one_byte (λ e. ground arith), refl))
          (λ escaped. escaped_key (ground arith) input))
  where
    cursor_key :
        c ≡ 27
        → (d : ℕ) → d ≡ b'O'
        → (rest : Bytes)
        → Reads
            (c ∷ d ∷ rest)
            (elim rest [ [] ↦ need_more | final ∷ others ↦ consumed (cursor_command final) 3 ])
    cursor_key e d o [] =
        subst (λ c. IsStart (c ∷ d ∷ [])) (sym e)
          (subst (λ d. IsStart (27 ∷ d ∷ [])) (sym o) cursor_start)
    cursor_key e d o (final ∷ others) = (
      c ∷ d ∷ final ∷ [],
      others,
      refl,
      subst (λ c. IsKey (c ∷ d ∷ final ∷ []) others) (sym e)
          (subst (λ d. IsKey (27 ∷ d ∷ final ∷ []) others) (sym o) cursor),
      refl,
    )

    escaped_key :
        c ≡ 27
        → (input : Bytes)
        → Reads (c ∷ input) (elim input [
          | [] ↦ need_more
          | d ∷ rest ↦
              if d == b'O'
              then elim rest [ [] ↦ need_more | final ∷ others ↦ consumed (cursor_command final) 3 ]
              else if not (d == b'[')
              then consumed (some (codes "scroll.exit")) 1
              else scroll_sequence rest
        ])
    escaped_key e [] = subst (λ c. IsStart (c ∷ [])) (sym e) escape_alone
    escaped_key e (d ∷ rest) =
        Reads-if (c ∷ d ∷ rest) (d == b'O') _ _ (λ o. cursor_key e d (ground arith) rest)
          (λ not_o.
            Reads-if (c ∷ d ∷ rest) (not (d == b'[')) _ _
              (λ other. (
                c ∷ [],
                d ∷ rest,
                refl,
                subst (λ c. IsKey (c ∷ []) (d ∷ rest)) (sym e)
                    (escape (λ h. ground arith) (λ h. ground arith)),
                refl,
              ))
              (λ bracket.
                subst (λ c. Reads (c ∷ d ∷ rest) (scroll_sequence rest)) (sym e)
                  (subst (λ d. Reads (27 ∷ d ∷ rest) (scroll_sequence rest))
                    (sym (is_bracket bracket)) (scroll_sequence-Reads rest))))
      where
        is_bracket : not (d == b'[') ≡ false → d ≡ b'['
        is_bracket h = ground arith
