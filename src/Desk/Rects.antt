-- ===== src/Desk/Rects.antt =====
-- The rectangles of the panes. A size of a terminal is not negative, and `split_rect` is only asked for a
-- rectangle with rows and columns, where its subtractions do not go below 0.
use cubicle.Base.{
  ℕ, Option, none, some, zero, leb, Bool, ltb, suc, false, ◌||◌, ◌&&◌, if◌then◌else◌, ◌/◌, ◌+◌,
  true, ◌-◌, ◌==◌,
}
use cubicle.Desk.Nodes.{Node, Layout, Split, horizontal, vertical, max_nodes}
use cubicle.Desk.Nodes.{Zoom, zoom_horizontal, zoom_vertical, zoom_full}
use cubicle.Desk.Tree.{
  gone, pane, halves, shape, first_of, pane_subtree_contains, same_node, pane_layout_zoom_target,
}

pub record Rect : Type 0 where
  pub row : ℕ
  pub col : ℕ
  pub rows : ℕ
  pub cols : ℕ

abbrev pub min_pane_cols : ℕ
min_pane_cols = 4

abbrev pub min_pane_rows : ℕ
min_pane_rows = 2

abbrev pub title_rows : ℕ
title_rows = 1

-- `split == DESK_SPLIT_HORIZONTAL ? horizontally : otherwise`.
abbrev pub by_split {ℓ} : {A : Type ℓ} → Split → A → A → A
by_split horizontal across down = across
by_split _ across down = down

unfoldable pub split_default_size : Rect → Split → ℕ
split_default_size rect split = by_split split (rect.cols / 2) (rect.rows / 2)

-- `int maximum = total - minimum - 1;` is negative exactly where it stops at 0 here: both are below the
-- minimum.
unfoldable pub clamp : ℕ → ℕ → ℕ → ℕ
clamp total minimum size =
    let maximum = total - minimum - 1 in
    let narrow = ltb maximum minimum in
    let least = if narrow then (if ltb 1 total then 1 else 0) else minimum in
    let most = if narrow then (if ltb 1 total then total - 2 else 0) else maximum in
    if ltb size least then least else if ltb most size then most else size

unfoldable pub split_clamp_size : Rect → Split → ℕ → ℕ
unfolding clamp
split_clamp_size rect split size =
    clamp (by_split split rect.cols rect.rows) (by_split split min_pane_cols min_pane_rows) size

unfoldable pub split_effective_size : Node → Rect → ℕ
unfolding split_clamp_size split_default_size
split_effective_size entry rect =
    split_clamp_size rect entry.split
      (if ltb 0 entry.split_size then entry.split_size else split_default_size rect entry.split)

-- The first half, the second half and the divider between them.
unfoldable pub halves_at : Rect → Split → ℕ → Rect × Rect × Rect
halves_at rect split size =
    by_split split
      (
        record rect { cols = size },
        record rect { col = rect.col + size + 1; cols = rect.cols - size - 1 },
        record { row = rect.row; col = rect.col + size; rows = rect.rows; cols = 1 },
      )
      (
        record rect { rows = size },
        record rect { row = rect.row + size + 1; rows = rect.rows - size - 1 },
        record { row = rect.row + size; col = rect.col; rows = 1; cols = rect.cols },
      )

unfoldable pub split_rect : Rect → Node → Rect × Rect × Rect
unfolding halves_at split_effective_size
split_rect rect entry = halves_at rect entry.split (split_effective_size entry rect)

abbrev pub zooms_split : Zoom → Split → Bool
zooms_split zoom_full split = true
zooms_split zoom_horizontal horizontal = true
zooms_split zoom_vertical vertical = true
zooms_split _ _ = false

-- The half that is shown alone because of the zoom.
unfoldable pub zoomed_half : Layout → Node → Option (Option ℕ)
unfolding pane_subtree_contains pane_layout_zoom_target
zoomed_half panes entry =
    let target = pane_layout_zoom_target panes in
    let first_has_active = pane_subtree_contains panes.nodes entry.first target in
    let second_has_active = pane_subtree_contains panes.nodes entry.second target in
    if zooms_split panes.zoom entry.split && (first_has_active || second_has_active)
    then some (if first_has_active then entry.first else entry.second)
    else none

abbrev pub is_empty_rect : Rect → Bool
is_empty_rect rect = rect.rows == 0 || rect.cols == 0

unfoldable pub rect_for_node : Layout → ℕ → Option ℕ → ℕ → Rect → Option Rect
unfolding shape zoomed_half split_rect
rect_for_node panes zero index id rect = none
rect_for_node panes (suc fuel) index id rect = elim (is_empty_rect rect) [
  | true ↦ none
  | false ↦ elim (shape panes.nodes index) [
    | gone ↦ none
    | pane p ↦ if p == id then some rect else none
    | halves entry ↦ elim (zoomed_half panes entry) [
      | some half ↦ rect_for_node panes fuel half id rect
      | none ↦
          first_of (rect_for_node panes fuel entry.first id (split_rect rect entry).0)
            (rect_for_node panes fuel entry.second id (split_rect rect entry).1)
    ]
  ]
]

unfoldable pub pane_layout_rect_for_pane : Layout → ℕ → ℕ → ℕ → Option Rect
unfolding rect_for_node
pane_layout_rect_for_pane panes rows cols id =
    rect_for_node panes max_nodes panes.root id
      (record { row = 0; col = 0; rows = rows; cols = cols })

unfoldable pub rect_for_tree_node : Layout → ℕ → Option ℕ → Option ℕ → Rect → Option Rect
unfolding shape zoomed_half split_rect
rect_for_tree_node panes zero index target rect = none
rect_for_tree_node panes (suc fuel) index target rect = elim (is_empty_rect rect) [
  | true ↦ none
  | false ↦ elim (shape panes.nodes index) [
    | gone ↦ none
    | pane p ↦ if same_node index target then some rect else none
    | halves entry ↦ elim (same_node index target) [
      | true ↦ some rect
      | false ↦ elim (zoomed_half panes entry) [
        | some half ↦ rect_for_tree_node panes fuel half target rect
        | none ↦
            first_of (rect_for_tree_node panes fuel entry.first target (split_rect rect entry).0)
              (rect_for_tree_node panes fuel entry.second target (split_rect rect entry).1)
      ]
    ]
  ]
]

-- What is under the title of a pane.
unfoldable pub pane_content_rect_for_pane : Layout → ℕ → ℕ → ℕ → Option Rect
unfolding pane_layout_rect_for_pane
pane_content_rect_for_pane panes rows cols id =
    elim (pane_layout_rect_for_pane panes rows cols id) [
      | none ↦ none
      | some rect ↦
          if leb rect.rows title_rows
          then none
          else some (record rect { row = rect.row + title_rows; rows = rect.rows - title_rows })
    ]

unfoldable pub rect_overlap_1d : ℕ → ℕ → ℕ → ℕ → ℕ
rect_overlap_1d start_a length_a start_b length_b =
    let end_a = start_a + length_a in
    let end_b = start_b + length_b in
    let start = if ltb start_b start_a then start_a else start_b in
    let end = if ltb end_a end_b then end_a else end_b in if ltb start end then end - start else 0
