-- ===== src/Json/Classify.antt =====
-- `classify` at each kind of byte.
use cubicle.Json.Chunk.{
  Chunk, short_escape, classify, sequence_length, copied, escaped, unicode_escape, backslash,
}
use cubicle.Base.{
  Option-cases, Bool-cases, arith, ltb, some, Bytes, lt→ltb, ==_iff, if◌then◌else◌, [], ◌==◌, ◌∷◌,
  ltb→lt, ltb→ge, ◌≢◌, inl, ◌≤◌, ◌<◌, inr, ℕ, ◌≡◌, none,
}

pub classify-special :
    (c e : ℕ) (s : Bytes) → short_escape c ≡ some e → classify c s ≡ escaped (backslash ∷ e ∷ [])
unfolding classify
classify-special c e s h = rw (h, classify)

pub classify-control :
    (c : ℕ) (s : Bytes)
    → short_escape c ≡ none
    → c < 0x20
    → classify c s ≡ escaped (unicode_escape c)
unfolding classify
classify-control c s h k = rw (h, classify) (rw (lt→ltb c 0x20 k))

pub classify-plain :
    (c : ℕ) (s : Bytes) → short_escape c ≡ none → 0x20 ≤ c → c < 0x80 → classify c s ≡ copied 1
unfolding classify
classify-plain c s h k l = rw (h, classify) (ground arith)

short_escape-high : (c : ℕ) → 0x80 ≤ c → short_escape c ≡ none
unfolding short_escape
short_escape-high c h = ground arith

pub classify-high :
    (c : ℕ) (s : Bytes)
    → 0x80 ≤ c
    → classify c s ≡ (
        if sequence_length c s == 0
        then escaped (unicode_escape c)
        else copied (sequence_length c s))
unfolding classify
classify-high c s h = rw (short_escape-high c h, classify) (ground arith)

abbrev pub IsControl : ℕ → Type 0
IsControl c = (short_escape c ≡ none) × (c < 0x20)

abbrev pub IsOrdinary : ℕ → Type 0
IsOrdinary c = (short_escape c ≡ none) × (0x20 ≤ c) × (c < 0x80)

-- To reason about `classify` by its branches.
module _ {ℓ} (P : Chunk → Type ℓ) (c : ℕ) (s : Bytes) where
  pub classify_cases :
      ((e : ℕ) → short_escape c ≡ some e → P (escaped (backslash ∷ e ∷ [])))
      → (IsControl c → P (escaped (unicode_escape c)))
      → (IsOrdinary c → P (copied 1))
      → (0x80 ≤ c → sequence_length c s ≡ 0 → P (escaped (unicode_escape c)))
      → (0x80 ≤ c → sequence_length c s ≢ 0 → P (copied (sequence_length c s)))
      → P (classify c s)
  classify_cases special control ordinary invalid valid = elim (Option-cases (short_escape c)) [
    | inr (e, h) ↦ rw (classify-special c e s h) (special e h)
    | inl none_e ↦ elim (Bool-cases (ltb c 0x20)) [
      | inl low ↦
          rw (classify-control c s none_e (ltb→lt c 0x20 low)) (control (none_e, ltb→lt c 0x20 low))
      | inr not_low ↦ elim (Bool-cases (ltb c 0x80)) [
        | inl ascii ↦
            rw (classify-plain c s none_e (ltb→ge c 0x20 not_low) (ltb→lt c 0x80 ascii))
              (ordinary (none_e, ltb→ge c 0x20 not_low, ltb→lt c 0x80 ascii))
        | inr high ↦ elim (Bool-cases (sequence_length c s == 0)) [
          | inl bad ↦
              rw (classify-high c s (ltb→ge c 0x80 high), bad)
                (invalid (ltb→ge c 0x80 high) ((==_iff _ 0).0 bad))
          | inr good ↦
              rw (classify-high c s (ltb→ge c 0x80 high), good)
                (valid (ltb→ge c 0x80 high) (λ e. cc (good, (==_iff _ 0).1 e)))
        ]
      ]
    ]
  ]
