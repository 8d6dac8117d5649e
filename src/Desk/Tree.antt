-- ===== src/Desk/Tree.antt =====
-- Walks over the tree of a layout, on fuel: one for each level that a tree in a table of 32 nodes could have.
use cubicle.Base.{
  ℕ, Option, none, some, length, leb, not, [], ◌&&◌, List, ◌||◌, if◌then◌else◌, ◌∷◌, false, zero,
  ◌+◌, Bool, ltb, ◌==◌, suc, true, inr, refl, ◌⊎◌, ◌≡◌, inl, ◌++◌,
}
use cubicle.Desk.Nodes.{Node, Layout, unsplit, node_at, max_nodes}
use cubicle.Desk.Nodes.{Zoom, zoom_horizontal, zoom_vertical}

-- What each walk asks of a node first: whether it is there, and whether it is a pane.
pub data Shape : Type 0 where
  gone : Shape
  pane : ℕ → Shape
  halves : Node → Shape

pub Shape-cases :
    (s : Shape) → (s ≡ gone) ⊎ (((p : ℕ) × (s ≡ pane p)) ⊎ ((entry : Node) × (s ≡ halves entry)))
Shape-cases gone = inl refl
Shape-cases (pane p) = inr (inl (p, refl))
Shape-cases (halves entry) = inr (inr (entry, refl))

unfoldable pub shape_of : Node → Shape
shape_of node =
    if not node.used
    then gone
    else elim node.split [ unsplit ↦ pane node.pane_id | _ ↦ halves node ]

unfoldable pub shape : List Node → Option ℕ → Shape
unfolding shape_of
shape nodes none = gone
shape nodes (some i) = shape_of (node_at nodes i)

unfoldable pub subtree_contains : List Node → ℕ → Option ℕ → ℕ → Bool
unfolding shape
subtree_contains nodes zero index id = false
subtree_contains nodes (suc fuel) index id = elim (shape nodes index) [
  | gone ↦ false
  | pane p ↦ p == id
  | halves entry ↦
      subtree_contains nodes fuel entry.first id || subtree_contains nodes fuel entry.second id
]

unfoldable pub pane_subtree_contains : List Node → Option ℕ → ℕ → Bool
unfolding subtree_contains
pane_subtree_contains nodes index id = subtree_contains nodes max_nodes index id

-- The first of two answers that is there.
abbrev pub first_of {ℓ} : {A : Type ℓ} → Option A → Option A → Option A
first_of none later = later
first_of (some found) later = some found

-- 0 stands for no leaf.
unfoldable pub first_leaf : List Node → ℕ → Option ℕ → ℕ
unfolding shape
first_leaf nodes zero index = 0
first_leaf nodes (suc fuel) index = elim (shape nodes index) [
  | gone ↦ 0
  | pane p ↦ p
  | halves entry ↦
      (let first = first_leaf nodes fuel entry.first in
        let second = first_leaf nodes fuel entry.second in
        if not (first == 0) then first else second)
]

unfoldable pub find_leaf : List Node → ℕ → Option ℕ → ℕ → Option ℕ
unfolding shape
find_leaf nodes zero index id = none
find_leaf nodes (suc fuel) index id = elim (shape nodes index) [
  | gone ↦ none
  | pane p ↦ if p == id then index else none
  | halves entry ↦
      first_of (find_leaf nodes fuel entry.first id) (find_leaf nodes fuel entry.second id)
]

unfoldable pub pane_find_leaf_node : List Node → Option ℕ → ℕ → Option ℕ
unfolding find_leaf
pane_find_leaf_node nodes index id = find_leaf nodes max_nodes index id

abbrev pub same_node : Option ℕ → Option ℕ → Bool
same_node none none = true
same_node (some i) (some j) = i == j
same_node _ _ = false

unfoldable pub find_parent : List Node → ℕ → Option ℕ → Option ℕ → Option ℕ
unfolding shape
find_parent nodes zero index child = none
find_parent nodes (suc fuel) index child = elim (shape nodes index) [
  | gone ↦ none
  | pane p ↦ none
  | halves entry ↦
      (let found =
          first_of (find_parent nodes fuel entry.first child)
            (find_parent nodes fuel entry.second child) in
        if same_node entry.first child || same_node entry.second child then index else found)
]

unfoldable pub pane_find_parent : List Node → Option ℕ → Option ℕ → Option ℕ
unfolding find_parent
pane_find_parent nodes index child = find_parent nodes max_nodes index child

abbrev pub is_found : Option ℕ → Bool
is_found none = false
is_found (some i) = true

-- `panes->zoom == DESK_ZOOM_HORIZONTAL || panes->zoom == DESK_ZOOM_VERTICAL`.
abbrev pub zooms_one_way : Zoom → Bool
zooms_one_way zoom_horizontal = true
zooms_one_way zoom_vertical = true
zooms_one_way _ = false

unfoldable pub pane_layout_zoom_target : Layout → ℕ
unfolding pane_find_leaf_node
pane_layout_zoom_target panes =
    if zooms_one_way panes.zoom
      && (not (panes.zoom_pane_id == 0)
          && is_found (pane_find_leaf_node panes.nodes panes.root panes.zoom_pane_id))
    then panes.zoom_pane_id
    else panes.active_pane_id

abbrev pub one_pane_id : Shape → List ℕ
one_pane_id (pane p) = p ∷ []
one_pane_id _ = []

-- The ids of the panes, in the order of the table: what a loop over the table looks at.
unfoldable pub pane_ids : List Node → List ℕ
unfolding shape_of
pane_ids [] = []
pane_ids (node ∷ nodes) = one_pane_id (shape_of node) ++ pane_ids nodes

unfoldable pub pane_layout_leaf_count : List Node → ℕ
unfolding pane_ids
pane_layout_leaf_count nodes = length (pane_ids nodes)

-- `best` and `fallback` of the loop of `pane_layout_next`, 0 for none.
unfoldable pub next_loop : ℕ → List ℕ → ℕ → ℕ → ℕ
next_loop active [] best fallback = if not (best == 0) then best else fallback
next_loop active (p ∷ ids) best fallback =
    next_loop active ids (if ltb active p && (best == 0 || ltb p best) then p else best)
      (if fallback == 0 || ltb p fallback then p else fallback)

unfoldable pub pane_layout_next : Layout → Layout
unfolding next_loop pane_ids
pane_layout_next panes = record panes {
  active_pane_id = next_loop panes.active_pane_id (pane_ids panes.nodes) 0 0;
}

unfoldable pub previous_loop : ℕ → List ℕ → ℕ → ℕ → ℕ
previous_loop active [] best fallback = if not (best == 0) then best else fallback
previous_loop active (p ∷ ids) best fallback =
    previous_loop active ids (if ltb p active && (best == 0 || ltb best p) then p else best)
      (if fallback == 0 || ltb fallback p then p else fallback)

unfoldable pub pane_layout_previous : Layout → Layout
unfolding previous_loop pane_ids
pane_layout_previous panes = record panes {
  active_pane_id = previous_loop panes.active_pane_id (pane_ids panes.nodes) 0 0;
}

unfoldable pub next_id : List ℕ → ℕ → ℕ
next_id [] n = n
next_id (p ∷ ids) n = next_id ids (if leb n p then p + 1 else n)

unfoldable pub pane_layout_next_id : List Node → ℕ
unfolding next_id pane_ids
pane_layout_next_id nodes = next_id (pane_ids nodes) 1
