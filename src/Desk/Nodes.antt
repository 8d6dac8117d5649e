-- ===== src/Desk/Nodes.antt =====
-- The table of nodes of a layout: the leaves are panes, the other nodes split their rectangle in two.
-- A node is its index in the table; the -1 that stands for none is `none`. Pane ids are not negative.
use cubicle.Base.{
  ℕ, Bytes, Option, none, some, true, if◌then◌else◌, ltb, ◌-◌, List, zero, take, false, Bool, set,
  [], ◌%◌, ◌+◌, codes, suc, ◌/◌, ◌++◌, get_or, replicate, ◌∷◌,
}

-- `desk_split_t`, with `unsplit` for `DESK_SPLIT_NONE`.
pub data Split : Type 0 where
  unsplit horizontal vertical : Split

pub data Zoom : Type 0 where
  no_zoom zoom_horizontal zoom_vertical zoom_full : Zoom

pub record Node : Type 0 where
  pub used : Bool
  pub pane_id : ℕ
  pub label : Bytes
  pub split : Split
  pub first : Option ℕ
  pub second : Option ℕ
  pub split_size : ℕ

pub record Layout : Type 0 where
  pub nodes : List Node
  pub root : Option ℕ
  pub active_pane_id : ℕ
  pub next_pane_id : ℕ
  pub zoom : Zoom
  pub zoom_pane_id : ℕ
  pub resize_mode : Bool
  pub move_mode : Bool
  pub status : Bytes

abbrev pub max_nodes : ℕ
max_nodes = 32

abbrev pub label_size : ℕ
label_size = 64

-- A node after `memset`.
abbrev pub cleared_node : Node
cleared_node = record {
  used = false;
  pane_id = 0;
  label = [];
  split = unsplit;
  first = some 0;
  second = some 0;
  split_size = 0;
}

abbrev pub cleared_layout : Layout
cleared_layout = record {
  nodes = replicate max_nodes cleared_node;
  root = some 0;
  active_pane_id = 0;
  next_pane_id = 0;
  zoom = no_zoom;
  zoom_pane_id = 0;
  resize_mode = false;
  move_mode = false;
  status = [];
}

-- `panes->nodes[i]`; no node outside of the table is in use.
abbrev pub node_at : List Node → ℕ → Node
node_at nodes i = get_or nodes i cleared_node

-- The first node that is not in use, counted from the given index.
unfoldable pub free_node : List Node → ℕ → Option ℕ
free_node [] i = none
free_node (node ∷ nodes) i =
    let later = free_node nodes (i + 1) in if node.used then later else some i

-- The node that is taken is cleared, but for `used`; `none` leaves the table as it was.
unfoldable pub pane_alloc_node : List Node → Option ℕ × List Node
unfolding free_node
pane_alloc_node nodes = elim (free_node nodes 0) [
  | none ↦ (none, nodes)
  | some i ↦ (some i, set nodes i (record cleared_node { used = true }))
]

-- `snprintf` into a label keeps what fits before the terminator.
unfoldable pub pane_create_leaf : List Node → ℕ → Bytes → Option ℕ × List Node
unfolding free_node
pane_create_leaf nodes pane_id label = elim (free_node nodes 0) [
  | none ↦ (none, nodes)
  | some i ↦ (
    some i,
    set nodes i (record cleared_node {
      used = true;
      pane_id = pane_id;
      label = take (label_size - 1) label;
    }),
  )
]

unfoldable pub pane_create_split : List Node → Split → Option ℕ → Option ℕ → Option ℕ × List Node
unfolding free_node
pane_create_split nodes split first second = elim (free_node nodes 0) [
  | none ↦ (none, nodes)
  | some i ↦ (
    some i,
    set nodes i
        (record cleared_node { used = true; split = split; first = first; second = second }),
  )
]

-- `%d` of a number that is not negative; enough fuel is more digits than it has.
abbrev pub digits_fuel : ℕ
digits_fuel = 20

unfoldable pub decimal_digits : ℕ → ℕ → Bytes
decimal_digits zero n = []
decimal_digits (suc fuel) n =
    let front = decimal_digits fuel (n / 10) in
    if ltb n 10 then (48 + n) ∷ [] else front ++ (48 + n % 10) ∷ []

-- The layout that `pane_layout_reset` sets up: two rows of two panes.
unfoldable pub pane_layout_reset : Layout
unfolding pane_create_leaf pane_create_split
pane_layout_reset =
    let (one, nodes1) = pane_create_leaf (replicate max_nodes cleared_node) 1 (codes "1") in
    let (two, nodes2) = pane_create_leaf nodes1 2 (codes "2") in
    let (three, nodes3) = pane_create_leaf nodes2 3 (codes "3") in
    let (four, nodes4) = pane_create_leaf nodes3 4 (codes "4") in
    let (top, nodes5) = pane_create_split nodes4 horizontal one two in
    let (bottom, nodes6) = pane_create_split nodes5 horizontal three four in
    let (root, nodes7) = pane_create_split nodes6 vertical top bottom in
    record cleared_layout { nodes = nodes7; root = root; active_pane_id = 1; next_pane_id = 5 }
