-- ===== src/Desk/Tests.antt =====
-- Witnesses of the theorems on the layout of the panes, on the layout of four panes that the desktop
-- starts with.
use cubicle.Desk.AutoGrid.{desk_auto_grid-covers, Holds, pane_layout_grid-Holds}
use cubicle.Desk.Grid.{desk_auto_grid, pane_layout_grid}
use cubicle.Desk.Input.{consumed, parse_scroll_mode_key, parse_resize_arrow}
use cubicle.Desk.Resize.{right_side, grow_by}
use cubicle.Desk.Keys.{Reads, parse_scroll_mode_key-Reads}
use cubicle.Desk.Closing.{pane_layout_compact_after_delete-times, unshifted}
use cubicle.Desk.Apart.{pane_layout_rect_for_pane-IsApart}
use cubicle.Desk.Edit.{
  pane_layout_delete_active, pane_layout_compact_after_delete, pane_layout_split,
}
use cubicle.Desk.Splitting.{Splits, pane_layout_split-Splits}
use cubicle.Desk.Rects.{pane_layout_rect_for_pane, split_rect, Rect}
use cubicle.Desk.Counting.{times}
use cubicle.Desk.Tiling.{IsApart, Tiles, split_rect-Tiles}
use cubicle.Base.{ℕ, ◌≤◌, some, true, arith, ◌+◌, ◌≡◌, refl, ◌≢◌, ◌*◌, ◌<◌, ◌-◌, ◌∷◌, codes, Bytes}
use cubicle.Desk.Nodes.{horizontal, vertical, Layout, Node, cleared_node, pane_layout_reset}

abbrev four : Layout
unfolding pane_layout_reset
four = pane_layout_reset

abbrev screen : Rect
screen = record { row = 0; col = 0; rows = 24; cols = 80 }

abbrev wide_split : Node
wide_split = record cleared_node { used = true; split = horizontal; split_size = 100 }

split_rect-Tiles_example :
    let (first, second, divider) = split_rect screen wide_split in Tiles screen first second divider
split_rect-Tiles_example = split_rect-Tiles screen wide_split (omega arith) (omega arith)

split_rect-sample : split_rect screen wide_split ≡ (
  record { row = 0; col = 0; rows = 24; cols = 75 },
  record { row = 0; col = 76; rows = 24; cols = 4 },
  record { row = 0; col = 75; rows = 24; cols = 1 },
)
unfolding split_rect
split_rect-sample = refl

abbrev top_left : Rect
top_left = record { row = 0; col = 0; rows = 12; cols = 40 }

abbrev bottom_right : Rect
bottom_right = record { row = 13; col = 41; rows = 11; cols = 39 }

first_pane : pane_layout_rect_for_pane four 24 80 1 ≡ some top_left
unfolding pane_layout_rect_for_pane four
first_pane = refl

fourth_pane : pane_layout_rect_for_pane four 24 80 4 ≡ some bottom_right
unfolding pane_layout_rect_for_pane four
fourth_pane = refl

pane_layout_rect_for_pane-IsApart_example :
    IsApart top_left bottom_right
    × (top_left.row + top_left.rows ≤ 24)
    × (top_left.col + top_left.cols ≤ 80)
pane_layout_rect_for_pane-IsApart_example =
    pane_layout_rect_for_pane-IsApart four 24 80 1 4 top_left bottom_right
      (λ e. absurd (omega (arith, e))) first_pane fourth_pane

pane_layout_split-Splits_example : Splits four vertical (pane_layout_split four vertical)
pane_layout_split-Splits_example = pane_layout_split-Splits four vertical refl

-- The panes without the one of id 2, which was deleted.
abbrev three : Layout
unfolding pane_layout_delete_active four
three = (pane_layout_delete_active (record four { active_pane_id = 2 })).0

removed_gone : times 2 three.nodes ≡ 0
unfolding times three
removed_gone = refl

abbrev closed : Layout
closed = pane_layout_compact_after_delete three 2

active_stays : three.active_pane_id ≢ 2
unfolding three
active_stays e = absurd (omega (arith, e))

pane_layout_compact_after_delete-times_example :
    ((id : ℕ) → times id closed.nodes ≡ times (unshifted 2 id) three.nodes)
    × (times closed.active_pane_id closed.nodes ≡ times three.active_pane_id three.nodes)
    × ((id : ℕ) → closed.next_pane_id ≤ id → times id closed.nodes ≡ 0)
pane_layout_compact_after_delete-times_example =
    pane_layout_compact_after_delete-times three 2 removed_gone active_stays

pane_layout_grid-Holds_example :
    (panes : Layout) × (pane_layout_grid 3 5 ≡ some panes) × Holds 15 panes
pane_layout_grid-Holds_example =
    pane_layout_grid-Holds 3 5 (omega arith) (omega arith) (omega arith)

desk_auto_grid-covers_example :
    let (rows, cols) = desk_auto_grid 11 in
    (11 ≤ rows * cols) × ((rows - 1) * cols < 11) × ((cols - 1) * (cols - 1) < 11)
desk_auto_grid-covers_example = desk_auto_grid-covers 11 (omega arith)

desk_auto_grid-sample : desk_auto_grid 11 ≡ (3, 4)
unfolding desk_auto_grid
desk_auto_grid-sample = refl

-- `PageUp`, with a letter behind it.
abbrev page_up : Bytes
page_up = 27 ∷ codes "[5~x"

read_page_up : parse_scroll_mode_key page_up ≡ consumed (some (codes "scroll.page_up")) 4
unfolding parse_scroll_mode_key
read_page_up = refl

parse_scroll_mode_key-Reads_example : Reads page_up (parse_scroll_mode_key page_up)
parse_scroll_mode_key-Reads_example = parse_scroll_mode_key-Reads page_up

shifted_right : parse_resize_arrow (27 ∷ codes "[1;2C") ≡ some (right_side, grow_by 1, 6)
unfolding parse_resize_arrow
shifted_right = refl
