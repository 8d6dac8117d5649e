-- ===== src/Terminal/Taking.antt =====
-- Capturing lines one after another, and taking them out again.
use cubicle.Terminal.Capture.{store_line-remember, store_line-IsCaptured, position-ne}
use cubicle.Terminal.History.{last, last-all, remember, last-append-last}
use cubicle.Terminal.Cell.{VtermCell, cells_from_vterm}
use cubicle.Base.{
  [], Bool, ◌≡◌, length, none, not, ◌==◌, arith, ◌++◌, List, some, ◌<◌, Option, if◌then◌else◌, ℕ,
  ◌∷◌, ◌||◌, append_assoc, inr, subst, inl, sym, Option-cases, ap, ◌∙◌, append-nil, ◌≤◌, zero, ◌≢◌,
  suc, false, ◌+◌, refl, get_or, set, Bool-cases, length-set, ◌%◌, size_add,
}
use cubicle.Base.Result.{err, ok}
use cubicle.Terminal.Scrollback.{
  Captured, ScrollbackLine, cleared, store_line, capture_scrollback_line, move_lines,
  take_scrollback, can_calloc, cell_size, line_size, slot_at,
}
use cubicle.Terminal.Ring.{
  captured_lines, IsCaptured, lines_from, length-lines_from, lines_from-set,
}

module _ (alloc : ℕ → Bool) where
  -- The line that is stored for these cells, where they can be copied.
  unfoldable pub copied_line : List VtermCell → Option ScrollbackLine
  copied_line sources =
      if length sources == 0 || not (can_calloc alloc (length sources) cell_size)
      then none
      else elim (cells_from_vterm sources) [
        | err e ↦ none
        | ok cells ↦ some (record { cols = length sources; cells = some cells })
      ]

  unfoldable pub copied_lines : List (List VtermCell) → List ScrollbackLine
  copied_lines [] = []
  copied_lines (sources ∷ rest) = elim (copied_line sources) [
    | none ↦ copied_lines rest
    | some line ↦ line ∷ copied_lines rest
  ]

  copied-none :
      (sources : List VtermCell) (rest : List (List VtermCell))
      → copied_line sources ≡ none
      → copied_lines (sources ∷ rest) ≡ copied_lines rest
  unfolding copied_lines
  copied-none sources rest e = rw (e, copied_lines)

  copied-some :
      (sources : List VtermCell) (rest : List (List VtermCell)) (line : ScrollbackLine)
      → copied_line sources ≡ some line
      → copied_lines (sources ∷ rest) ≡ line ∷ copied_lines rest
  unfolding copied_lines
  copied-some sources rest line e = rw (e, copied_lines)

  -- The lines that libvterm pushes, in order.
  unfoldable pub capture_each : Captured → List (List VtermCell) → Captured
  capture_each c [] = c
  capture_each c (sources ∷ rest) = capture_each (capture_scrollback_line alloc c sources).0 rest

  after : Captured → Option ScrollbackLine → Captured
  after c none = c
  after c (some line) = store_line c line

  -- With the capture on, a line is stored or, where it cannot be copied, passed over.
  capture-step :
      (c : Captured) (sources : List VtermCell)
      → IsCaptured c
      → 0 < c.capacity
      → (capture_scrollback_line alloc c sources).0 ≡ after c (copied_line sources)
  unfolding capture_scrollback_line copied_line after
  capture-step c sources v pos = ground arith

  store_line-capacity :
      (c : Captured) (line : ScrollbackLine) → (store_line c line).capacity ≡ c.capacity
  unfolding store_line
  store_line-capacity c line = ground arith

  stored-last :
      (c : Captured) (line : ScrollbackLine) (others : List ScrollbackLine)
      → IsCaptured c
      → 0 < c.capacity
      → last (store_line c line).capacity (captured_lines (store_line c line) ++ others)
        ≡ last c.capacity (captured_lines c ++ line ∷ others)
  unfolding remember
  stored-last c line others v pos =
      ap (λ n. last n (captured_lines (store_line c line) ++ others)) (store_line-capacity c line)
      ∙ ap (λ xs. last c.capacity (xs ++ others)) (store_line-remember c line v pos)
      ∙ last-append-last c.capacity (captured_lines c ++ line ∷ []) others
      ∙ ap (λ xs. last c.capacity xs) (append_assoc (captured_lines c) (line ∷ []) others)

  -- What the ring holds after any number of lines is the end of all that could be copied: at most
  -- `capacity` lines, the newest, in their order.
  pub capture_each-last :
      (c : Captured) (pushed : List (List VtermCell))
      → IsCaptured c
      → 0 < c.capacity
      → captured_lines (capture_each c pushed)
        ≡ last c.capacity (captured_lines c ++ copied_lines pushed)
  unfolding capture_each after copied_lines
  capture_each-last c [] v pos = sym (
      ap (λ xs. last c.capacity xs) (append-nil (captured_lines c))
      ∙ last-all c.capacity (captured_lines c)
          (omega (arith, length-lines_from c.capacity c.slots c.head c.count)))
  capture_each-last c (sources ∷ rest) v pos = elim (Option-cases (copied_line sources)) [
    | inl none_e ↦
        let same : (capture_scrollback_line alloc c sources).0 ≡ c =
          capture-step c sources v pos ∙ ap (λ o. after c o) none_e in
        ap (λ d. captured_lines (capture_each d rest)) same
        ∙ capture_each-last c rest v pos
        ∙ ap (λ xs. last c.capacity (captured_lines c ++ xs))
            (sym (copied-none sources rest none_e))
    | inr (line, e) ↦
        let same : (capture_scrollback_line alloc c sources).0 ≡ store_line c line =
          capture-step c sources v pos ∙ ap (λ o. after c o) e in
        ap (λ d. captured_lines (capture_each d rest)) same
        ∙ capture_each-last (store_line c line) rest (store_line-IsCaptured c line v pos)
            (subst (λ n. 0 < n) (sym (store_line-capacity c line)) pos)
        ∙ stored-last c line (copied_lines rest) v pos
        ∙ ap (λ xs. last c.capacity (captured_lines c ++ xs))
            (sym (copied-some sources rest line e))
  ]

  cleared-IsCaptured :
      (c : Captured) (slot : ℕ)
      → IsCaptured c
      → IsCaptured (record c { slots = set c.slots slot cleared })
  cleared-IsCaptured c slot v = record {
    slots_fit = length-set c.slots slot cleared ∙ v.slots_fit;
    count_fits = v.count_fits;
    head_fits = v.head_fits;
    size_fits = v.size_fits;
    limit_set = v.limit_set;
  }

  -- Moving lines out: they come in order, and every slot that was read is cleared.
  move_lines-lines_from :
      (n i : ℕ) (c : Captured)
      → IsCaptured c
      → i + n ≤ c.capacity
      → let (lines, slots) = move_lines alloc c i n in
        (lines ≡ lines_from c.capacity c.slots (c.head + i) n) × (length slots ≡ c.capacity)
  unfolding move_lines lines_from
  move_lines-lines_from zero i c v h = (refl, v.slots_fit)
  move_lines-lines_from (suc n) i c v h =
      let inside = v.head_fits (omega arith) in
      let exact : size_add c.head i ≡ c.head + i = omega arith in
      let slot = slot_at c i in
      let here : slot ≡ (c.head + i) % c.capacity = ap (λ (k : ℕ). k % c.capacity) exact in
      let apart : (j : ℕ) → j < n → slot ≢ (c.head + (i + 1) + j) % c.capacity = λ j below e.
        position-ne c.capacity c.head i (i + 1 + j) (omega arith) (omega arith) (omega arith)
          (ap (λ (k : ℕ). k % c.capacity) (omega arith) ∙ sym e ∙ here) in
      let later =
        move_lines-lines_from n (i + 1) (record c { slots = set c.slots slot cleared })
          (cleared-IsCaptured c slot v) (omega arith) in
      (
        ap
              (λ (k : ℕ).
                get_or c.slots k cleared
                ∷ (move_lines alloc (record c { slots = set c.slots slot cleared }) (i + 1) n).0)
              here
            ∙ ap (λ xs. get_or c.slots ((c.head + i) % c.capacity) cleared ∷ xs)
                (later.0
                  ∙ lines_from-set c.capacity c.slots slot (c.head + (i + 1)) n cleared apart
                  ∙ ap (λ (k : ℕ). lines_from c.capacity c.slots k n) (omega arith)),
        later.1,
      )

-- What `take_scrollback` promises of each outcome.
unfoldable pub Takes : (ℕ → Bool) → Captured → Option (Captured × List ScrollbackLine) → Type 0
Takes alloc c (some (left, lines)) =
    (lines ≡ captured_lines c)
    × (captured_lines left ≡ [])
    × IsCaptured left
    × (left.capacity ≡ c.capacity)
Takes alloc c none = (c.count ≢ 0) × (can_calloc alloc c.count line_size ≡ false)

-- Taking the captured lines gives all of them, oldest first, and leaves a ring of the same capacity
-- that is empty and in order; it fails only where there are lines and the allocator refuses.
pub take_scrollback-Takes :
    (alloc : ℕ → Bool) (c : Captured) → IsCaptured c → Takes alloc c (take_scrollback alloc c)
unfolding take_scrollback Takes lines_from
take_scrollback-Takes alloc c v = elim (Bool-cases (c.count == 0)) [
  | inl nothing ↦
      let none_held : captured_lines c ≡ [] =
        let empty : c.count ≡ 0 = ground arith in
        ap (λ n. lines_from c.capacity c.slots c.head n) empty in
      rw nothing (sym none_held, none_held, v, refl)
  | inr some_lines ↦ rw some_lines (elim (Bool-cases (can_calloc alloc c.count line_size)) [
    | inl given ↦
        let moved = move_lines-lines_from alloc c.count 0 c v (omega (arith, v.count_fits)) in
        rw given (
          moved.0 ∙ ap (λ (k : ℕ). lines_from c.capacity c.slots k c.count) (omega arith),
          refl,
          record {
            slots_fit = moved.1;
            count_fits = omega arith;
            head_fits = λ pos. pos;
            size_fits = v.size_fits;
            limit_set = v.limit_set;
          },
          refl,
        )
    | inr refused ↦ rw refused (ground arith, refused)
  ])
]
