-- ===== src/Desk/Grid.antt =====
-- The layouts that are set up for a number of panes.
use cubicle.Desk.Tree.{is_found}
use cubicle.Base.{
  ℕ, Option, none, some, ◌||◌, if◌then◌else◌, ◌∷◌, ◌*◌, ◌-◌, true, false, ◌+◌, not, codes, zero,
  length, suc, [], ltb, Bytes, List, ◌/◌, leb, ◌==◌, Bool, ◌&&◌,
}
use cubicle.Desk.Nodes.{
  Node, Layout, Split, horizontal, vertical, max_nodes, pane_create_split, cleared_layout,
  pane_create_leaf, decimal_digits, digits_fuel,
}

-- What the halves of a range have made, as one split; -1 of a half is -1 of the whole.
abbrev pub joined : Split → Option ℕ → Option ℕ → List Node → Option ℕ × List Node
unfolding pane_create_split
joined split (some first) (some second) nodes =
    pane_create_split nodes split (some first) (some second)
joined split _ _ nodes = (none, nodes)

-- On fuel, one for each level: each level halves the rows or the columns.
unfoldable pub build_grid_range : List Node → ℕ → ℕ → ℕ → ℕ → ℕ → ℕ → Option ℕ × List Node
unfolding pane_create_leaf joined decimal_digits
build_grid_range nodes zero row_start rows col_start cols total_cols = (none, nodes)
build_grid_range nodes (suc fuel) row_start rows col_start cols total_cols =
    elim (rows == 1 && cols == 1) [
      | true ↦
          let pane_id = row_start * total_cols + col_start + 1 in
          pane_create_leaf nodes pane_id (decimal_digits digits_fuel pane_id)
      | false ↦ elim (ltb 1 cols) [
        | true ↦
            let left_cols = cols / 2 in
            let (left, nodes1) =
              build_grid_range nodes fuel row_start rows col_start left_cols total_cols in
            let (right, nodes2) =
              build_grid_range nodes1 fuel row_start rows (col_start + left_cols) (cols - left_cols)
                total_cols in
            joined horizontal left right nodes2
        | false ↦
            let top_rows = rows / 2 in
            let (top, nodes1) =
              build_grid_range nodes fuel row_start top_rows col_start cols total_cols in
            let (bottom, nodes2) =
              build_grid_range nodes1 fuel (row_start + top_rows) (rows - top_rows) col_start cols
                total_cols in
            joined vertical top bottom nodes2
      ]
    ]

-- The fields that are set around the nodes; `memset` clears the others.
abbrev pub set_up : Option ℕ → List Node → ℕ → Layout
set_up root nodes next = record cleared_layout {
  nodes = nodes;
  root = root;
  active_pane_id = 1;
  next_pane_id = next;
}

-- `none` is -1 with EINVAL; the layout is then cleared or half made, and is not used.
unfoldable pub pane_layout_grid : ℕ → ℕ → Option Layout
unfolding build_grid_range
pane_layout_grid rows cols =
    if rows == 0 || (cols == 0 || ltb 16 (rows * cols))
    then none
    else (let (root, nodes) = build_grid_range cleared_layout.nodes max_nodes 0 rows 0 cols cols in
        if is_found root then some (set_up root nodes (rows * cols + 1)) else none)

unfoldable pub pane_layout_three_panes : Option Layout
unfolding pane_create_leaf pane_create_split
pane_layout_three_panes =
    let (top_left, nodes1) = pane_create_leaf cleared_layout.nodes 1 (codes "1") in
    let (bottom_left, nodes2) = pane_create_leaf nodes1 2 (codes "2") in
    let (right, nodes3) = pane_create_leaf nodes2 3 (codes "3") in
    let (left, nodes4) = pane_create_split nodes3 vertical top_left bottom_left in
    let (root, nodes5) = pane_create_split nodes4 horizontal left right in
    if not (is_found top_left) || (not (is_found bottom_left) || not (is_found right))
    then none
    else if is_found left && is_found root
    then some (set_up root nodes5 4)
    else none

-- `while (cols * cols < pane_count) cols++`, on fuel.
unfoldable pub grow_cols : ℕ → ℕ → ℕ → ℕ
grow_cols zero pane_count cols = cols
grow_cols (suc fuel) pane_count cols =
    let further = grow_cols fuel pane_count (cols + 1) in
    if ltb (cols * cols) pane_count then further else cols

-- The rows and the columns; the fuel is the number of panes.
unfoldable pub desk_auto_grid : ℕ → ℕ × ℕ
unfolding grow_cols
desk_auto_grid pane_count =
    if leb pane_count 1
    then (1, 1)
    else if pane_count == 2
    then (1, 2)
    else if leb pane_count 4
    then (2, 2)
    else (let cols = grow_cols pane_count pane_count 1 in ((pane_count + cols - 1) / cols, cols))

unfoldable pub pane_layout_auto : ℕ → Option Layout
unfolding pane_layout_three_panes pane_layout_grid desk_auto_grid
pane_layout_auto pane_count =
    if pane_count == 3
    then pane_layout_three_panes
    else (let (rows, cols) = desk_auto_grid pane_count in pane_layout_grid rows cols)

-- A `long` that `strtol` gives, with what stands behind the number; where nothing is a number, that is the
-- text itself.
pub data Long : Type 0 where
  above_zero : ℕ → Long
  not_above_zero : Long

abbrev pub in_grid : Long → Option ℕ
in_grid (above_zero n) = if ltb 16 n then none else some n
in_grid not_above_zero = none

abbrev pub is_cross : ℕ → Bool
is_cross c = c == b'x' || c == b'X'

module _ (strtol : Bytes → Long × Bytes) where
  -- The columns: a number up to the end of the text.
  unfoldable pub parse_cols : Bytes → Option ℕ
  parse_cols text =
      let (parsed, rest) = strtol text in
      if length rest == length text || not (length rest == 0) then none else in_grid parsed

  unfoldable pub parse_grid_layout : Bytes → Option (ℕ × ℕ)
  unfolding parse_cols
  parse_grid_layout text =
      let (parsed, rest) = strtol text in
      if length rest == length text then none else elim rest [
        | [] ↦ none
        | c ∷ col_start ↦ elim (if is_cross c then parse_cols col_start else none) [
          | none ↦ none
          | some cols ↦ elim (in_grid parsed) [ none ↦ none | some rows ↦ some (rows, cols) ]
        ]
      ]
