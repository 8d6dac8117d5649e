-- ===== src/Desk/Transpose.antt =====
-- Exchanging rows and columns of four panes whose dividers meet.
use cubicle.Desk.Edit.{same_split}
use cubicle.Desk.Tree.{same_node, pane_find_leaf_node, pane_find_parent}
use cubicle.Base.{
  ℕ, Option, none, some, List, if◌then◌else◌, true, zero, Bool, not, ◌&&◌, false, ◌==◌, Bytes,
  codes, [], suc, set, ◌||◌,
}
use cubicle.Desk.Nodes.{Node, Layout, Split, unsplit, node_at, max_nodes}
use cubicle.Desk.Rects.{Rect, split_rect, rect_for_tree_node, by_split}
use cubicle.Desk.Resize.{screen_rect}

unfoldable pub pane_split_divider_rect : Layout → ℕ → ℕ → ℕ → Option Rect
unfolding rect_for_tree_node split_rect
pane_split_divider_rect panes rows cols split_node =
    elim (rect_for_tree_node panes max_nodes panes.root (some split_node) (screen_rect rows cols)) [
      | none ↦ none
      | some rect ↦ some (split_rect rect (node_at panes.nodes split_node)).2
    ]

abbrev pub pane_dividers_align : Rect → Rect → Split → Bool
pane_dividers_align first second split =
    by_split split
      (first.col == second.col && (first.rows == second.rows && first.row == second.row))
      (first.row == second.row && (first.cols == second.cols && first.col == second.col))

-- The statuses that are shown when nothing is changed, and the end of the search of one parent.
pub data Transposed : Type 0 where
  refused : Bytes → Transposed
  go_on : Transposed
  done : List Node → Transposed

-- The nodes that take part: the split of the active pane, its parent, the parent of that, and the split
-- beside the parent; and whether the parent is the first half of its own parent.
pub record Corner : Type 0 where
  pub active_split : ℕ
  pub local_parent : ℕ
  pub grandparent : ℕ
  pub sibling_split : ℕ
  pub outside : Option ℕ
  pub local_is_first : Bool

-- The changes of the four nodes, in the order of the source; what is read is read before them.
unfoldable pub rewire : List Node → Corner → List Node
rewire nodes c =
    let active = node_at nodes c.active_split in
    let local = node_at nodes c.local_parent in
    let grand = node_at nodes c.grandparent in
    let sibling = node_at nodes c.sibling_split in
    let nodes1 = set nodes c.grandparent (record grand {
      split_size = local.split_size;
      first = if c.local_is_first then c.outside else some c.active_split;
      second = if c.local_is_first then some c.active_split else c.outside;
    }) in
    let nodes2 =
      set nodes1 c.active_split
        (record active { first = some c.local_parent; second = some c.sibling_split }) in
    let nodes3 = set nodes2 c.local_parent (record local {
      split = grand.split;
      split_size = grand.split_size;
      first = if c.local_is_first then active.first else sibling.first;
      second = if c.local_is_first then sibling.first else active.first;
    }) in
    set nodes3 c.sibling_split (record sibling {
      split = grand.split;
      split_size = grand.split_size;
      first = if c.local_is_first then active.second else sibling.second;
      second = if c.local_is_first then sibling.second else active.second;
    })

abbrev pub is_split : Split → Bool
is_split unsplit = false
is_split _ = true

-- Three splits whose ways alternate as they must.
abbrev pub alternates : Split → Split → Split → Bool
alternates active local grand =
    is_split active
    && (is_split local
        && (is_split grand && (same_split local grand && not (same_split active grand))))

-- The checks on the dividers, and the change.
unfoldable pub transpose_corner : Layout → ℕ → ℕ → Corner → Transposed
unfolding pane_split_divider_rect rewire
transpose_corner panes rows cols c =
    let active = node_at panes.nodes c.active_split in
    let sibling = node_at panes.nodes c.sibling_split in
    if not sibling.used || not (same_split sibling.split active.split)
    then refused (codes "transpose: adjacent split mismatch")
    else elim (pane_split_divider_rect panes rows cols c.active_split) [
      | none ↦ refused (codes "transpose: cannot resolve dividers")
      | some active_divider ↦ elim (pane_split_divider_rect panes rows cols c.sibling_split) [
        | none ↦ refused (codes "transpose: cannot resolve dividers")
        | some sibling_divider ↦
            if pane_dividers_align active_divider sibling_divider active.split
            then done (rewire panes.nodes c)
            else refused (codes "transpose: dividers are not aligned")
      ]
    ]

-- One turn of the loop, once the three ancestors are there.
unfoldable pub transpose_at : Layout → ℕ → ℕ → ℕ → ℕ → ℕ → Transposed
unfolding transpose_corner
transpose_at panes rows cols active_split local_parent grandparent =
    let active = node_at panes.nodes active_split in
    let local = node_at panes.nodes local_parent in
    let grand = node_at panes.nodes grandparent in
    let local_is_first = same_node grand.first (some local_parent) in
    let active_is_first = same_node local.first (some active_split) in
    if not (alternates active.split local.split grand.split)
    then go_on
    else if (local_is_first && active_is_first) || (not local_is_first && not active_is_first)
    then go_on
    else elim (if local_is_first then grand.second else grand.first) [
      | none ↦ refused (codes "transpose: adjacent split mismatch")
      | some sibling_split ↦ transpose_corner panes rows cols (record {
        active_split = active_split;
        local_parent = local_parent;
        grandparent = grandparent;
        sibling_split = sibling_split;
        outside = if active_is_first then local.second else local.first;
        local_is_first = local_is_first;
      })
    ]

unfoldable pub transpose_from : Layout → ℕ → ℕ → ℕ → ℕ → Layout × Bool
unfolding pane_find_parent transpose_at
transpose_from panes rows cols zero child = (panes, false)
transpose_from panes rows cols (suc fuel) child =
    elim (pane_find_parent panes.nodes panes.root (some child)) [
      | none ↦ (record panes { status = codes "transpose: no eligible parent split" }, false)
      | some active_split ↦
          let further = transpose_from panes rows cols fuel active_split in
          elim (pane_find_parent panes.nodes panes.root (some active_split)) [
            | none ↦ further
            | some local_parent ↦
                elim (pane_find_parent panes.nodes panes.root (some local_parent)) [
                  | none ↦ further
                  | some grandparent ↦
                      elim (transpose_at panes rows cols active_split local_parent grandparent) [
                        | go_on ↦ further
                        | refused status ↦ (record panes { status = status }, false)
                        | done nodes ↦ (record panes { nodes = nodes; status = [] }, true)
                      ]
                ]
          ]
    ]

unfoldable pub pane_layout_transpose : Layout → ℕ → ℕ → Layout × Bool
unfolding pane_find_leaf_node transpose_from
pane_layout_transpose panes rows cols =
    elim (pane_find_leaf_node panes.nodes panes.root panes.active_pane_id) [
      | none ↦ (record panes { status = codes "transpose: no active pane" }, false)
      | some child ↦ transpose_from panes rows cols max_nodes child
    ]
