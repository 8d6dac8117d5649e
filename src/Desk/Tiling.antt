-- ===== src/Desk/Tiling.antt =====
-- How the halves of a split lie in its rectangle, and the panes of a layout on the screen.
use cubicle.Base.{ℕ, arith, ◌≤◌, ◌⊎◌, ◌<◌, ◌+◌, ◌≡◌, if◌then◌else◌, ltb, leb, ◌-◌, ◌&&◌, inl, inr}
use cubicle.Desk.Nodes.{Node, Split, unsplit, horizontal, vertical}
use cubicle.Desk.Rects.{
  Rect, split_rect, clamp, min_pane_cols, split_effective_size, min_pane_rows, split_clamp_size,
  split_default_size, halves_at,
}

-- The size of the first half against the size that is there, the divider and the other half.
abbrev IsClamped : ℕ → ℕ → ℕ → Type 0
IsClamped total minimum size =
    (size + 1 ≤ total)
    × (3 ≤ total → (1 ≤ size) × (size + 2 ≤ total))
    × (minimum + minimum + 1 ≤ total → (minimum ≤ size) × (size + minimum + 1 ≤ total))

clamp-IsClamped :
    (total minimum size : ℕ)
    → 1 ≤ total
    → 1 ≤ minimum
    → IsClamped total minimum (clamp total minimum size)
unfolding clamp
clamp-IsClamped total minimum size pos some_min =
    (ground arith, λ h. (ground arith, ground arith), λ h. (ground arith, ground arith))

-- One rectangle lies in another.
abbrev pub IsInside : Rect → Rect → Type 0
IsInside inner outer =
    (outer.row ≤ inner.row)
    × (inner.row + inner.rows ≤ outer.row + outer.rows)
    × (outer.col ≤ inner.col)
    × (inner.col + inner.cols ≤ outer.col + outer.cols)

-- A row or a column is free between two rectangles.
abbrev pub IsApart : Rect → Rect → Type 0
IsApart a b =
    (a.col + a.cols < b.col)
    ⊎ ((b.col + b.cols < a.col) ⊎ ((a.row + a.rows < b.row) ⊎ (b.row + b.rows < a.row)))

abbrev IsShown : Rect → Type 0
IsShown rect = (1 ≤ rect.rows) × (1 ≤ rect.cols)

-- 1 where the cell lies in the rectangle, else 0.
abbrev pub covers : Rect → ℕ → ℕ → ℕ
covers rect r c =
    if leb rect.row r
      && ltb r (rect.row + rect.rows)
      && (leb rect.col c && ltb c (rect.col + rect.cols))
    then 1
    else 0

covers-across :
    (row rows col cols size r c : ℕ)
    → size + 1 ≤ cols
    → covers (record { row = row; col = col; rows = rows; cols = size }) r c
        + covers
            (record { row = row; col = col + size + 1; rows = rows; cols = cols - size - 1 })
            r
            c
        + covers (record { row = row; col = col + size; rows = rows; cols = 1 }) r c
      ≡ covers (record { row = row; col = col; rows = rows; cols = cols }) r c
covers-across row rows col cols size r c h = ground arith

covers-down :
    (row rows col cols size r c : ℕ)
    → size + 1 ≤ rows
    → covers (record { row = row; col = col; rows = size; cols = cols }) r c
        + covers
            (record { row = row + size + 1; col = col; rows = rows - size - 1; cols = cols })
            r
            c
        + covers (record { row = row + size; col = col; rows = 1; cols = cols }) r c
      ≡ covers (record { row = row; col = col; rows = rows; cols = cols }) r c
covers-down row rows col cols size r c h = ground arith

-- What a split promises of a rectangle.
abbrev pub Tiles : Rect → Rect → Rect → Rect → Type 0
Tiles rect first second divider =
    ((r c : ℕ) → covers first r c + covers second r c + covers divider r c ≡ covers rect r c)
    × IsInside first rect
    × IsInside second rect
    × IsApart first second
    × (min_pane_cols + min_pane_cols < rect.cols
        → min_pane_rows + min_pane_rows < rect.rows
        → (min_pane_cols ≤ first.cols)
          × (min_pane_rows ≤ first.rows)
          × (min_pane_cols ≤ second.cols)
          × (min_pane_rows ≤ second.rows))

down-Tiles :
    (rect : Rect) (wanted : ℕ)
    → 1 ≤ rect.rows
    → 1 ≤ rect.cols
    → let (first, second, divider) =
        halves_at rect vertical (split_clamp_size rect vertical wanted) in
      Tiles rect first second divider
unfolding halves_at split_clamp_size
down-Tiles rect wanted rows cols =
    let size = clamp rect.rows min_pane_rows wanted in
    let (fits, wide, roomy) = clamp-IsClamped rect.rows min_pane_rows wanted rows (omega arith) in
    (
      λ r c. covers-down rect.row rect.rows rect.col rect.cols size r c fits,
      (omega arith, omega arith, omega arith, omega arith),
      (omega arith, omega arith, omega arith, omega arith),
      inr (inr (inl (omega arith))),
      λ room_across room_down.
          let (least, rest) = roomy (omega arith) in (omega arith, least, omega arith, omega arith),
    )

halves_at-Tiles :
    (rect : Rect) (split : Split) (wanted : ℕ)
    → 1 ≤ rect.rows
    → 1 ≤ rect.cols
    → let (first, second, divider) = halves_at rect split (split_clamp_size rect split wanted) in
      Tiles rect first second divider
unfolding halves_at split_clamp_size
halves_at-Tiles rect horizontal wanted rows cols =
    let size = clamp rect.cols min_pane_cols wanted in
    let (fits, wide, roomy) = clamp-IsClamped rect.cols min_pane_cols wanted cols (omega arith) in
    (
      λ r c. covers-across rect.row rect.rows rect.col rect.cols size r c fits,
      (omega arith, omega arith, omega arith, omega arith),
      (omega arith, omega arith, omega arith, omega arith),
      inl (omega arith),
      λ room_across room_down.
          let (least, rest) = roomy (omega arith) in (least, omega arith, omega arith, omega arith),
    )
halves_at-Tiles rect vertical wanted rows cols = down-Tiles rect wanted rows cols
halves_at-Tiles rect unsplit wanted rows cols = down-Tiles rect wanted rows cols

-- A split covers each cell of a rectangle exactly once, by the first half, the second half or the divider,
-- and the divider keeps the halves apart; in a rectangle with room for two panes of the least size in
-- both directions, both halves have at least that size.
pub split_rect-Tiles :
    (rect : Rect) (entry : Node)
    → 1 ≤ rect.rows
    → 1 ≤ rect.cols
    → let (first, second, divider) = split_rect rect entry in Tiles rect first second divider
unfolding split_rect split_effective_size
split_rect-Tiles rect entry rows cols =
    halves_at-Tiles rect entry.split
      (if ltb 0 entry.split_size then entry.split_size else split_default_size rect entry.split)
      rows cols
