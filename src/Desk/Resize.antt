-- ===== src/Desk/Resize.antt =====
-- Moving a side of the active pane.
use cubicle.Desk.Tree.{pane_find_parent, pane_find_leaf_node, same_node}
use cubicle.Base.{ℕ, Option, none, some, suc, if◌then◌else◌, ◌-◌, Bool, zero, false, ◌+◌, set, not}
use cubicle.Desk.Nodes.{Layout, Split, horizontal, vertical, node_at, max_nodes}
use cubicle.Desk.Rects.{Rect, split_clamp_size, split_effective_size, rect_for_tree_node}

pub data Side : Type 0 where
  left_side right_side top_side bottom_side : Side

-- `delta`, which may be negative.
pub data Delta : Type 0 where
  grow_by : ℕ → Delta
  shrink_by : ℕ → Delta

-- A size below 0 is clamped like 0.
abbrev pub moved_size : ℕ → Delta → ℕ
moved_size size (grow_by n) = size + n
moved_size size (shrink_by n) = size - n

abbrev pub owns_side : Side → Split → Bool → Bool
owns_side left_side horizontal child_is_first = not child_is_first
owns_side right_side horizontal child_is_first = child_is_first
owns_side top_side vertical child_is_first = not child_is_first
owns_side bottom_side vertical child_is_first = child_is_first
owns_side _ _ child_is_first = false

abbrev pub screen_rect : ℕ → ℕ → Rect
screen_rect rows cols = record { row = 0; col = 0; rows = rows; cols = cols }

-- Up from a child to the first parent whose divider is that side; `none` is -1.
unfoldable pub resize_from : Layout → ℕ → ℕ → Side → Delta → ℕ → ℕ → Option Layout
unfolding pane_find_parent rect_for_tree_node split_effective_size split_clamp_size
resize_from panes rows cols side delta zero child = none
resize_from panes rows cols side delta (suc fuel) child =
    elim (pane_find_parent panes.nodes panes.root (some child)) [
      | none ↦ none
      | some parent ↦
          let entry = node_at panes.nodes parent in
          let further = resize_from panes rows cols side delta fuel parent in
          if owns_side side entry.split (same_node entry.first (some child))
          then elim (rect_for_tree_node panes max_nodes panes.root (some parent)
              (screen_rect rows cols)) [
                | none ↦ none
                | some rect ↦
                    let size = moved_size (split_effective_size entry rect) delta in
                    some (record panes {
                      nodes =
                          set panes.nodes parent
                            (record entry { split_size = split_clamp_size rect entry.split size });
                    })
              ]
          else further
    ]

unfoldable pub pane_layout_resize_side : Layout → ℕ → ℕ → Side → Delta → Option Layout
unfolding pane_find_leaf_node resize_from
pane_layout_resize_side panes rows cols side delta =
    elim (pane_find_leaf_node panes.nodes panes.root panes.active_pane_id) [
      | none ↦ none
      | some child ↦ resize_from panes rows cols side delta max_nodes child
    ]
