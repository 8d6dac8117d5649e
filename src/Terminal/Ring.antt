-- ===== src/Terminal/Ring.antt =====
-- The ring of captured lines as the list of its lines.
use cubicle.Base.{
  ℕ, ◌%◌, ap, ◌++◌, ltb, ◌∷◌, inr, ◌∙◌, suc, ◌≢◌, ◌≡◌, refl, zero, length, ◌+◌, arith, Bool-cases,
  inl, ltb→ge, ltb→lt, List, set, ◌<◌, sym, get_or, ◌-◌, [], size_mod, ◌≤◌, ◌*◌, get_or-set_ne,
}
use cubicle.Terminal.Scrollback.{Captured, ScrollbackLine, cleared}
use native.Mathlib.Nat.{mod-add-mod, mod-eq_of_lt, mod-eq-sub-mod}

-- Fewer than `cap` steps round a ring do not come back to the start.
pub step-ne : (cap h k : ℕ) → h < cap → 0 < k → k < cap → (h + k) % cap ≢ h
step-ne cap h k inside pos short = elim (Bool-cases (ltb (h + k) cap)) [
  | inl below ↦ omega (arith, mod-eq_of_lt {n = h + k} {m = cap} (ltb→lt (h + k) cap below))
  | inr above ↦
      let past = ltb→ge (h + k) cap above in
      omega (
        arith,
        mod-eq-sub-mod {n = h + k} {m = cap} past,
        mod-eq_of_lt {n = h + k - cap} {m = cap} (omega arith),
      )
]

module _ (cap : ℕ) where
  -- The `n` lines from position `k` on, where positions go round at `cap`.
  unfoldable pub lines_from : List ScrollbackLine → ℕ → ℕ → List ScrollbackLine
  lines_from slots k zero = []
  lines_from slots k (suc n) = get_or slots (k % cap) cleared ∷ lines_from slots (k + 1) n

  pub length-lines_from :
      (slots : List ScrollbackLine) (k n : ℕ) → length (lines_from slots k n) ≡ n
  unfolding lines_from
  length-lines_from slots k zero = refl
  length-lines_from slots k (suc n) = omega (arith, length-lines_from slots (k + 1) n)

  -- Only the position modulo `cap` counts.
  pub lines_from-mod :
      (slots : List ScrollbackLine) (j k n : ℕ)
      → j % cap ≡ k % cap
      → lines_from slots j n ≡ lines_from slots k n
  unfolding lines_from
  lines_from-mod slots j k zero e = refl
  lines_from-mod slots j k (suc n) e =
      let next : (j + 1) % cap ≡ (k + 1) % cap =
        sym (mod-add-mod j cap 1) ∙ ap (λ r. (r + 1) % cap) e ∙ mod-add-mod k cap 1 in
      cc (e, lines_from-mod slots (j + 1) (k + 1) n next)

  -- A write outside the lines leaves them alone.
  pub lines_from-set :
      (slots : List ScrollbackLine) (slot k n : ℕ) (line : ScrollbackLine)
      → ((i : ℕ) → i < n → slot ≢ (k + i) % cap)
      → lines_from (set slots slot line) k n ≡ lines_from slots k n
  unfolding lines_from
  lines_from-set slots slot k zero line apart = refl
  lines_from-set slots slot k (suc n) line apart =
      let first : slot ≢ k % cap =
        λ e. apart 0 (omega arith) (e ∙ ap (λ (j : ℕ). j % cap) (omega arith)) in
      let others : (i : ℕ) → i < n → slot ≢ (k + 1 + i) % cap =
        λ i h e. apart (suc i) (omega arith) (e ∙ ap (λ (j : ℕ). j % cap) (omega arith)) in
      cc (
        get_or-set_ne slots slot (k % cap) line cleared first,
        lines_from-set slots slot (k + 1) n line others,
      )

  -- One more line at the end.
  pub lines_from-snoc :
      (slots : List ScrollbackLine) (k n : ℕ)
      → lines_from slots k (suc n)
        ≡ lines_from slots k n ++ get_or slots ((k + n) % cap) cleared ∷ []
  unfolding lines_from
  lines_from-snoc slots k zero =
      let here : k ≡ k + 0 = omega arith in ap (λ (j : ℕ). get_or slots (j % cap) cleared ∷ []) here
  lines_from-snoc slots k (suc n) =
      let here : k + 1 + n ≡ k + suc n = omega arith in
      ap (λ rest. get_or slots (k % cap) cleared ∷ rest) (lines_from-snoc slots (k + 1) n)
      ∙ ap
          (λ (j : ℕ).
            get_or slots (k % cap) cleared
            ∷ (lines_from slots (k + 1) n ++ get_or slots (j % cap) cleared ∷ []))
          here

-- The lines that the ring holds, oldest first.
abbrev pub captured_lines : Captured → List ScrollbackLine
captured_lines c = lines_from c.capacity c.slots c.head c.count

-- What the functions keep of the ring; `calloc` gave the slots, so their bytes fit in `size_t`.
pub record IsCaptured (c : Captured) : Type 0 where
  pub slots_fit : length c.slots ≡ c.capacity
  pub count_fits : c.count ≤ c.capacity
  pub head_fits : 0 < c.capacity → c.head < c.capacity
  pub size_fits : c.capacity * 16 < size_mod
  pub limit_set : c.limit ≡ c.capacity
