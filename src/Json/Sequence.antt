-- ===== src/Json/Sequence.antt =====
-- The branches of the `switch` and of the UTF-8 tests, for proofs.
use cubicle.Json.Chunk.{
  within, three_follow, two_follow, short_escape, one_follows, sequence_length, quote, backslash,
}
use cubicle.Base.{
  if◌then◌else◌, ◌&&◌, inr, ◌≡◌, Bytes, ◌≢◌, none, ==_iff, false, inl, true, some, refl, ℕ, Bool,
  ◌∷◌, ◌⊎◌, [], arith,
}

-- The nine outcomes of the `switch`.
pub short_escape-some :
    (c : ℕ) {e : ℕ}
    → short_escape c ≡ some e
    → ((c ≡ 34) × (e ≡ 34))
      ⊎ (((c ≡ 92) × (e ≡ 92))
          ⊎ (((c ≡ 8) × (e ≡ b'b'))
              ⊎ (((c ≡ 12) × (e ≡ b'f'))
                  ⊎ (((c ≡ 10) × (e ≡ b'n'))
                      ⊎ (((c ≡ 13) × (e ≡ b'r')) ⊎ ((c ≡ 9) × (e ≡ b't')))))))
unfolding short_escape
short_escape-some c h = ground arith

pub short_escape-none : (c : ℕ) → short_escape c ≡ none → (c ≢ quote) × (c ≢ backslash)
unfolding short_escape
short_escape-none c h = ground arith

-- The rows of the tests: a lead byte, and the range of the byte after it.
abbrev pub ThreeRow : ℕ → ℕ → ℕ → Type 0
ThreeRow c lo hi =
    ((c ≡ 0xe0) × (lo ≡ 0xa0) × (hi ≡ 0xbf))
    ⊎ (((c ≡ 0xed) × (lo ≡ 0x80) × (hi ≡ 0x9f))
        ⊎ (((within 0xe1 0xec c ≡ true) ⊎ (within 0xee 0xef c ≡ true)) × (lo ≡ 0x80) × (hi ≡ 0xbf)))

abbrev pub FourRow : ℕ → ℕ → ℕ → Type 0
FourRow c lo hi =
    ((c ≡ 0xf0) × (lo ≡ 0x90) × (hi ≡ 0xbf))
    ⊎ (((c ≡ 0xf4) × (lo ≡ 0x80) × (hi ≡ 0x8f))
        ⊎ ((within 0xf1 0xf3 c ≡ true) × (lo ≡ 0x80) × (hi ≡ 0xbf)))

pub and_left : (a b : Bool) → (a && b) ≡ true → a ≡ true
and_left a b h = ground arith

pub and_right : (a b : Bool) → (a && b) ≡ true → b ≡ true
and_right a b h = ground arith

-- To reason about `sequence_length` by its branches.
module _ {ℓ} (P : ℕ → Type ℓ) (c : ℕ) (s : Bytes) where
  branch : (b : Bool) {m n : ℕ} → (b ≡ true → P m) → P n → P (if b then m else n)
  branch true yes_case no_case = yes_case refl
  branch false yes_case no_case = no_case

  pub sequence_length_cases :
      P 0
      → (within 0xc2 0xdf c ≡ true → one_follows s ≡ true → P 2)
      → ((lo hi : ℕ) → ThreeRow c lo hi → two_follow s lo hi ≡ true → P 3)
      → ((lo hi : ℕ) → FourRow c lo hi → three_follow s lo hi ≡ true → P 4)
      → P (sequence_length c s)
  unfolding sequence_length
  sequence_length_cases zero_case two_case three_case four_case =
      branch _ (λ h. two_case (and_left _ _ h) (and_right _ _ h))
        (branch _ (three 0xa0 0xbf (λ h. inl ((==_iff c _).0 h, refl, refl))) (
          branch _ (three 0x80 0xbf (λ h. inr (inr (inl h, refl, refl)))) (
            branch _ (three 0x80 0x9f (λ h. inr (inl ((==_iff c _).0 h, refl, refl)))) (
              branch _ (three 0x80 0xbf (λ h. inr (inr (inr h, refl, refl)))) (
                branch _ (four 0x90 0xbf (λ h. inl ((==_iff c _).0 h, refl, refl))) (
                  branch _ (four 0x80 0xbf (λ h. inr (inr (h, refl, refl)))) (
                    branch _ (four 0x80 0x8f (λ h. inr (inl ((==_iff c _).0 h, refl, refl))))
                      zero_case)))))))
    where
      three :
          {a : Bool} (lo hi : ℕ)
          → (a ≡ true → ThreeRow c lo hi)
          → (a && two_follow s lo hi) ≡ true
          → P 3
      three {a} lo hi row h =
          three_case lo hi (row (and_left a (two_follow s lo hi) h))
            (and_right a (two_follow s lo hi) h)

      four :
          {a : Bool} (lo hi : ℕ)
          → (a ≡ true → FourRow c lo hi)
          → (a && three_follow s lo hi) ≡ true
          → P 4
      four {a} lo hi row h =
          four_case lo hi (row (and_left a (three_follow s lo hi) h))
            (and_right a (three_follow s lo hi) h)

-- Each branch is taken by its lead bytes alone, so its test decides the length.
pub sequence_length-two :
    (c : ℕ) (s : Bytes) → within 0xc2 0xdf c ≡ true → one_follows s ≡ true → sequence_length c s ≡ 2
unfolding sequence_length
sequence_length-two c s h f = ground arith

pub sequence_length-three :
    (c lo hi : ℕ) (s : Bytes)
    → ThreeRow c lo hi
    → two_follow s lo hi ≡ true
    → sequence_length c s ≡ 3
unfolding sequence_length
sequence_length-three c lo hi s (inl r) f = ground arith
sequence_length-three c lo hi s (inr (inl r)) f = ground arith
sequence_length-three c lo hi s (inr (inr (inl r, r1, r2))) f = ground arith
sequence_length-three c lo hi s (inr (inr (inr r, r1, r2))) f = ground arith

pub sequence_length-four :
    (c lo hi : ℕ) (s : Bytes)
    → FourRow c lo hi
    → three_follow s lo hi ≡ true
    → sequence_length c s ≡ 4
unfolding sequence_length
sequence_length-four c lo hi s (inl r) f = ground arith
sequence_length-four c lo hi s (inr (inl r)) f = ground arith
sequence_length-four c lo hi s (inr (inr r)) f = ground arith

-- What follows a lead byte, taken apart.
pub one_follows-split :
    (c : ℕ) (s : Bytes)
    → one_follows (c ∷ s) ≡ true
    → (x : ℕ) × (t : Bytes) × (s ≡ x ∷ t) × (within 0x80 0xbf x ≡ true)
unfolding one_follows
one_follows-split c [] h = cc
one_follows-split c (x ∷ t) h = (x, t, refl, h)

pub two_follow-split :
    (c lo hi : ℕ) (s : Bytes)
    → two_follow (c ∷ s) lo hi ≡ true
    → (x y : ℕ) × (t : Bytes) × (s ≡ x ∷ y ∷ t)
      × (within lo hi x ≡ true)
      × (within 0x80 0xbf y ≡ true)
unfolding two_follow
two_follow-split c lo hi [] h = cc
two_follow-split c lo hi (x ∷ []) h = absurd (ground arith)
two_follow-split c lo hi (x ∷ y ∷ t) h = (x, y, t, refl, ground arith, ground arith)

pub three_follow-split :
    (c lo hi : ℕ) (s : Bytes)
    → three_follow (c ∷ s) lo hi ≡ true
    → (x y z : ℕ) × (t : Bytes) × (s ≡ x ∷ y ∷ z ∷ t)
      × (within lo hi x ≡ true)
      × (within 0x80 0xbf y ≡ true)
      × (within 0x80 0xbf z ≡ true)
unfolding three_follow
three_follow-split c lo hi [] h = cc
three_follow-split c lo hi (x ∷ []) h = absurd (ground arith)
three_follow-split c lo hi (x ∷ y ∷ []) h = absurd (ground arith)
three_follow-split c lo hi (x ∷ y ∷ z ∷ t) h =
    (x, y, z, t, refl, ground arith, ground arith, ground arith)
