-- ===== src/Desk/Edit.antt =====
-- Splitting, adding and deleting panes. What returns -1 is `none`; the layout is then the one before, but
-- for the fields of nodes that are not in use.
use cubicle.Desk.Tree.{
  pane_layout_next_id, shape_of, pane_find_leaf_node, pane_find_parent, first_leaf, same_node,
  is_found,
}
use cubicle.Base.{
  ℕ, Option, none, some, zero, length, ◌&&◌, ◌==◌, leb, ◌++◌, suc, set, false, Bytes, if◌then◌else◌,
  [], ltb, List, ◌+◌, codes, true, ◌∷◌, Bool, ◌-◌,
}
use cubicle.Desk.Nodes.{
  Node, Layout, Split, unsplit, horizontal, vertical, node_at, max_nodes, label_size,
  decimal_digits, pane_create_leaf, pane_alloc_node, digits_fuel,
}
use cubicle.Desk.Nodes.{no_zoom}
use cubicle.Desk.Tree.{gone, pane, halves}

-- `panes->nodes[i].used = false` for a node that was created.
abbrev pub give_back : List Node → Option ℕ → List Node
give_back nodes none = nodes
give_back nodes (some i) = set nodes i (record (node_at nodes i) { used = false })

-- The labels of the halves must fit their buffers of 64 bytes.
abbrev pub half_label : Bytes → Bytes → Option Bytes
half_label label suffix =
    if leb label_size (length (label ++ suffix)) then none else some (label ++ suffix)

-- The two new leaves take the ids of the pane that is split and the next one.
unfoldable pub split_leaf : Layout → Split → ℕ → ℕ → Bytes → Bytes → Layout × Bool
unfolding pane_create_leaf
split_leaf panes split leaf pane_id first_label second_label =
    let (first_leaf, nodes1) = pane_create_leaf panes.nodes pane_id first_label in
    let (new_leaf, nodes2) = pane_create_leaf nodes1 panes.next_pane_id second_label in
    if is_found first_leaf && is_found new_leaf
    then (
      record panes {
        nodes = set nodes2 leaf (record (node_at nodes2 leaf) {
          split = split;
          first = first_leaf;
          second = new_leaf;
          split_size = 0;
          pane_id = 0;
        });
        next_pane_id = panes.next_pane_id + 1;
        active_pane_id = panes.next_pane_id;
      },
      true,
    )
    else (record panes { nodes = give_back (give_back nodes2 first_leaf) new_leaf }, false)

-- The new layout, and whether the call returns 0.
unfoldable pub pane_layout_split : Layout → Split → Layout × Bool
unfolding pane_find_leaf_node split_leaf
pane_layout_split panes split =
    elim (pane_find_leaf_node panes.nodes panes.root panes.active_pane_id) [
      | none ↦ (panes, false)
      | some leaf ↦
          let entry = node_at panes.nodes leaf in
          elim (half_label entry.label (codes ".1")) [
            | none ↦ (panes, false)
            | some first_label ↦ elim (half_label entry.label (codes ".2")) [
              | none ↦ (panes, false)
              | some second_label ↦
                  split_leaf panes split leaf entry.pane_id first_label second_label
            ]
          ]
    ]

pub data Direction : Type 0 where
  to_left to_right to_above to_below : Direction

abbrev pub is_sideways : Direction → Bool
is_sideways to_left = true
is_sideways to_right = true
is_sideways _ = false

-- Whether the new pane comes first.
abbrev pub comes_first : Direction → Bool
comes_first to_left = true
comes_first to_above = true
comes_first _ = false

abbrev pub same_split : Split → Split → Bool
same_split unsplit unsplit = true
same_split horizontal horizontal = true
same_split vertical vertical = true
same_split _ _ = false

-- Up from a child through the parents that are split the given way.
unfoldable pub expand : Layout → ℕ → Split → ℕ → ℕ
unfolding pane_find_parent
expand panes zero through child = child
expand panes (suc fuel) through child =
    elim (pane_find_parent panes.nodes panes.root (some child)) [
      | none ↦ child
      | some parent ↦
          let further = expand panes fuel through parent in
          if same_split (node_at panes.nodes parent).split through then further else child
    ]

unfoldable pub pane_layout_add_direction : Layout → Direction → Layout × Bool
unfolding pane_find_leaf_node expand decimal_digits pane_alloc_node pane_create_leaf
pane_layout_add_direction panes direction =
    elim (pane_find_leaf_node panes.nodes panes.root panes.active_pane_id) [
      | none ↦ (panes, false)
      | some leaf ↦
          let sideways = is_sideways direction in
          let target = expand panes max_nodes (if sideways then vertical else horizontal) leaf in
          add_beside panes direction (if sideways then horizontal else vertical) target
    ]
  where
    add_beside : Layout → Direction → Split → ℕ → Layout × Bool
    add_beside panes direction split target = elim (pane_alloc_node panes.nodes).0 [
      | none ↦ (panes, false)
      | some old_subtree ↦
          let nodes1 =
            set (pane_alloc_node panes.nodes).1 old_subtree (node_at panes.nodes target) in
          let (new_leaf, nodes2) =
            pane_create_leaf nodes1 panes.next_pane_id
              (decimal_digits digits_fuel panes.next_pane_id) in
          if is_found new_leaf
          then (
            record panes {
              nodes = set nodes2 target (record (node_at nodes2 target) {
                split = split;
                pane_id = 0;
                label = [];
                split_size = 0;
                first = if comes_first direction then new_leaf else some old_subtree;
                second = if comes_first direction then some old_subtree else new_leaf;
              });
              active_pane_id = panes.next_pane_id;
              next_pane_id = panes.next_pane_id + 1;
              zoom = no_zoom;
              zoom_pane_id = 0;
            },
            true,
          )
          else (record panes { nodes = give_back nodes2 (some old_subtree) }, false)
    ]

unfoldable pub pane_layout_delete_active : Layout → Layout × Bool
unfolding pane_find_leaf_node pane_find_parent first_leaf
pane_layout_delete_active panes =
    elim (pane_find_leaf_node panes.nodes panes.root panes.active_pane_id) [
      | none ↦ (panes, false)
      | some leaf ↦ elim (pane_find_parent panes.nodes panes.root (some leaf)) [
        | none ↦ (panes, false)
        | some parent ↦
            let entry = node_at panes.nodes parent in
            let sibling = if same_node entry.first (some leaf) then entry.second else entry.first in
            if same_node panes.root (some leaf)
            then (panes, false)
            else replaced panes leaf parent sibling
      ]
    ]
  where
    replaced : Layout → ℕ → ℕ → Option ℕ → Layout × Bool
    -- A split always has two halves.
    replaced panes leaf parent none = (panes, false)
    replaced panes leaf parent (some sibling) =
        let nodes1 = set panes.nodes parent (node_at panes.nodes sibling) in
        (
          record panes {
            active_pane_id = first_leaf panes.nodes max_nodes (some sibling);
            nodes = give_back (give_back nodes1 (some leaf)) (some sibling);
          },
          true,
        )

-- `pane_id--` of the panes behind the one that was removed.
abbrev pub shift_id : ℕ → ℕ → ℕ
shift_id removed id = if ltb removed id then id - 1 else id

unfoldable pub shift_node : ℕ → Node → Node
unfolding shape_of
shift_node removed node = elim (shape_of node) [
  | gone ↦ node
  | pane p ↦ record node { pane_id = shift_id removed p }
  | halves entry ↦ node
]

unfoldable pub shift_nodes : ℕ → List Node → List Node
unfolding shift_node
shift_nodes removed [] = []
shift_nodes removed (node ∷ nodes) = shift_node removed node ∷ shift_nodes removed nodes

unfoldable pub pane_layout_compact_after_delete : Layout → ℕ → Layout
unfolding shift_nodes pane_layout_next_id
pane_layout_compact_after_delete panes removed =
    let nodes = shift_nodes removed panes.nodes in
    let active = shift_id removed panes.active_pane_id in
    record panes {
      nodes = nodes;
      active_pane_id = active;
      zoom_pane_id =
          if panes.zoom_pane_id == removed then active else shift_id removed panes.zoom_pane_id;
      next_pane_id = pane_layout_next_id nodes;
    }
