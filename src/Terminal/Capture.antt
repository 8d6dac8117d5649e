-- ===== src/Terminal/Capture.antt =====
-- The ring of captured lines against a history of bounded length.
use cubicle.Terminal.History.{remember, remember-full, remember-room}
use cubicle.Base.{
  ◌++◌, arith, drop, [], ◌<◌, ◌∷◌, length-set, ◌≡◌, ◌≢◌, ℕ, ◌%◌, subst, ap, ◌∙◌, length,
  get_or-set_self, ◌-◌, set, ◌+◌, sym, suc, List, inl, ◌==◌, get_or, inr, size_add, Bool-cases,
  false, true,
}
use cubicle.Terminal.Scrollback.{Captured, ScrollbackLine, cleared, store_line, slot_at}
use cubicle.Terminal.Ring.{
  captured_lines, IsCaptured, lines_from, lines_from-mod, step-ne, lines_from-snoc, lines_from-set,
  length-lines_from,
}
use native.Mathlib.Nat.{mod-add-mod, mod-eq_of_lt, mod-lt, mod-eq-sub-mod}

-- Two positions less than a round apart are different slots.
pub position-ne :
    (cap head i j : ℕ) → 0 < cap → i < j → j < i + cap → (head + j) % cap ≢ (head + i) % cap
position-ne cap head i j pos before close =
    let here : (head + i) % cap < cap = mod-lt (head + i) pos in
    let there : ((head + i) % cap + (j - i)) % cap ≡ (head + j) % cap =
      mod-add-mod (head + i) cap (j - i) ∙ ap (λ (k : ℕ). k % cap) (omega arith) in
    λ e. step-ne cap ((head + i) % cap) (j - i) here (omega arith) (omega arith) (there ∙ e)

module _ (cap head : ℕ) (slots : List ScrollbackLine) (line : ScrollbackLine) (inside : head < cap)
    (fits : length slots ≡ cap) where
  store-free :
      (count : ℕ)
      → count < cap
      → lines_from cap (set slots ((head + count) % cap) line) head (suc count)
        ≡ lines_from cap slots head count ++ line ∷ []
  store-free count free =
      let slot = (head + count) % cap in
      let below : slot < length slots =
        subst (λ n. slot < n) (sym fits) (mod-lt (head + count) (omega arith)) in
      lines_from-snoc cap (set slots slot line) head count
      ∙ ap (λ x. lines_from cap (set slots slot line) head count ++ x ∷ [])
          (get_or-set_self slots slot line cleared below)
      ∙ ap (λ xs. xs ++ line ∷ [])
          (lines_from-set cap slots slot head count line
            (λ i h. position-ne cap head i count (omega arith) h (omega arith)))

  -- In a full ring the oldest line gives way.
  store-full :
      (m : ℕ)
      → cap ≡ suc m
      → lines_from cap (set slots head line) ((head + 1) % cap) (suc m)
        ≡ drop 1 (lines_from cap slots head (suc m)) ++ line ∷ []
  unfolding lines_from
  store-full m e =
      let round : (head + 1 + m) % cap ≡ head = omega (
        arith,
        mod-eq-sub-mod {n = head + 1 + m} {m = cap} (omega arith),
        mod-eq_of_lt {n = head + 1 + m - cap} {m = cap} (omega arith),
      ) in
      let written : get_or (set slots head line) ((head + 1 + m) % cap) cleared ≡ line =
        ap (λ (k : ℕ). get_or (set slots head line) k cleared) round
        ∙ get_or-set_self slots head line cleared (omega arith) in
      lines_from-mod cap (set slots head line) ((head + 1) % cap) (head + 1) (suc m)
        (mod-eq_of_lt (mod-lt (head + 1) (omega arith)))
      ∙ lines_from-snoc cap (set slots head line) (head + 1) m
      ∙ ap (λ x. lines_from cap (set slots head line) (head + 1) m ++ x ∷ []) written
      ∙ ap (λ xs. xs ++ line ∷ [])
          (lines_from-set cap slots head (head + 1) m line (λ i h q.
            step-ne cap head (1 + i) inside (omega arith) (omega arith)
              (ap (λ (k : ℕ). k % cap) (omega arith) ∙ sym q)))

pub store_line-IsCaptured :
    (c : Captured) (line : ScrollbackLine)
    → IsCaptured c
    → 0 < c.capacity
    → IsCaptured (store_line c line)
unfolding store_line
store_line-IsCaptured c line v pos =
    ground (arith, length-set c.slots c.head line, length-set c.slots (slot_at c c.count) line)

module _ (c : Captured) (line : ScrollbackLine) (v : IsCaptured c) (pos : 0 < c.capacity) where
  held : length (captured_lines c) ≡ c.count
  held = length-lines_from c.capacity c.slots c.head c.count

  stored-full :
      (c.count == c.capacity) ≡ true
      → captured_lines (store_line c line)
        ≡ lines_from c.capacity (set c.slots c.head line) ((c.head + 1) % c.capacity) c.count
  unfolding store_line
  stored-full full =
      let step : size_add c.head 1 ≡ c.head + 1 = omega (arith, v.head_fits pos) in rw (full, step)

  stored-free :
      (c.count == c.capacity) ≡ false
      → captured_lines (store_line c line)
        ≡ lines_from c.capacity
            (set c.slots ((c.head + c.count) % c.capacity) line)
            c.head
            (c.count + 1)
  unfolding store_line
  stored-free free =
      let step : size_add c.head c.count ≡ c.head + c.count = omega (arith, v.head_fits pos) in
      rw (free, step)

-- A stored line is remembered as the last of at most `capacity` lines.
pub store_line-remember :
    (c : Captured) (line : ScrollbackLine)
    → IsCaptured c
    → 0 < c.capacity
    → captured_lines (store_line c line) ≡ remember c.capacity (captured_lines c) line
store_line-remember c line v pos =
    let size = held c line v pos in
    elim (Bool-cases (c.count == c.capacity)) [
      | inl full ↦
          let same : c.count ≡ c.capacity = ground arith in
          let pred : c.count ≡ suc (c.capacity - 1) = omega arith in
          stored-full c line v pos full
          ∙ ap (λ n. lines_from c.capacity (set c.slots c.head line) ((c.head + 1) % c.capacity) n)
              pred
          ∙ store-full c.capacity c.head c.slots line (v.head_fits pos) v.slots_fit (c.capacity - 1)
              (omega arith)
          ∙ ap (λ n. drop 1 (lines_from c.capacity c.slots c.head n) ++ line ∷ []) (sym pred)
          ∙ sym (remember-full c.capacity (captured_lines c) line (omega arith) pos)
      | inr free ↦
          let below : c.count < c.capacity = ground arith in
          stored-free c line v pos free
          ∙ ap
              (λ n.
                lines_from c.capacity (set c.slots ((c.head + c.count) % c.capacity) line) c.head n)
              (omega arith)
          ∙ store-free c.capacity c.head c.slots line (v.head_fits pos) v.slots_fit c.count below
          ∙ sym (remember-room c.capacity (captured_lines c) line (omega arith))
    ]
