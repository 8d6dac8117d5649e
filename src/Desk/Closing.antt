-- ===== src/Desk/Closing.antt =====
-- The ids of the panes when the gap that a deleted pane leaves is closed.
use cubicle.Base.{
  ℕ, Option, ◌≡◌, ltb, List, [], if◌then◌else◌, refl, ◌≤◌, ◌+◌, ◌∷◌, arith, leb, Bool, false, true,
  ap, ◌∙◌, ◌≢◌, ◌++◌, Bytes,
}
use cubicle.Desk.Nodes.{Node, Layout, Split, unsplit, horizontal, vertical}
use cubicle.Desk.Tree.{
  Shape, gone, pane, halves, shape_of, pane_ids, next_id, pane_layout_next_id, one_pane_id,
}
use cubicle.Desk.Counting.{one_if, shape_counts, counts, times}
use cubicle.Desk.Edit.{shift_id, shift_node, shift_nodes, pane_layout_compact_after_delete}

-- Where an id comes from that is there once the gap is closed.
abbrev pub unshifted : ℕ → ℕ → ℕ
unshifted removed id = if ltb id removed then id else id + 1

shift-counts :
    (removed id p : ℕ)
    → one_if p removed ≡ 0
    → one_if (shift_id removed p) id ≡ one_if p (unshifted removed id)
shift-counts removed id p h = ground arith

counts-shift_node :
    (removed id : ℕ) (node : Node)
    → counts removed node ≡ 0
    → counts id (shift_node removed node) ≡ counts (unshifted removed id) node
unfolding counts shift_node shape_of
counts-shift_node removed id node h =
    by_fields node.used node.pane_id node.label node.split node.first node.second node.split_size h
  where
    by_fields :
        (used : Bool) (p : ℕ) (label : Bytes) (split : Split) (first second : Option ℕ) (size : ℕ)
        → let node : Node = record {
          used = used;
          pane_id = p;
          label = label;
          split = split;
          first = first;
          second = second;
          split_size = size;
        } in
          counts removed node ≡ 0
          → counts id (shift_node removed node) ≡ counts (unshifted removed id) node
    by_fields false p label split first second size h = refl
    by_fields true p label unsplit first second size h = shift-counts removed id p h
    by_fields true p label horizontal first second size h = refl
    by_fields true p label vertical first second size h = refl

times-shift_nodes :
    (removed id : ℕ) (nodes : List Node)
    → times removed nodes ≡ 0
    → times id (shift_nodes removed nodes) ≡ times (unshifted removed id) nodes
unfolding times shift_nodes
times-shift_nodes removed id [] h = refl
times-shift_nodes removed id (node ∷ nodes) h = omega (
  arith,
  times-shift_nodes removed id nodes (omega arith),
  counts-shift_node removed id node (omega arith),
)

-- A shape gives an id to count exactly where it gives one to look at.
next_id-shape :
    (s : Shape) (id n : ℕ) (ids : List ℕ)
    → next_id (one_pane_id s ++ ids) n ≤ id
    → (m : ℕ) × (next_id ids m ≤ id) × (n ≤ m) × (m ≤ id → shape_counts id s ≡ 0)
unfolding next_id
next_id-shape gone id n ids h = (n, h, omega arith, λ k. refl)
next_id-shape (pane p) id n ids h =
    (if leb n p then p + 1 else n, h, ground arith, λ k. ground arith)
next_id-shape (halves entry) id n ids h = (n, h, omega arith, λ k. refl)

next_id-times :
    (id n : ℕ) (nodes : List Node)
    → next_id (pane_ids nodes) n ≤ id
    → (n ≤ id) × (times id nodes ≡ 0)
unfolding times pane_ids next_id
next_id-times id n [] h = (h, refl)
next_id-times id n (node ∷ nodes) h =
    let (m, later, small, zero_here) = next_id-shape (shape_of node) id n (pane_ids nodes) h in
    let (bound, rest) = next_id-times id m nodes later in
    (omega arith, omega (arith, zero_here bound, rest))

-- Once the gap is closed, the panes behind the removed id are numbered one lower, the others as before,
-- an active pane that was not the removed one is still there, and no pane has the next id or a higher one.
pub pane_layout_compact_after_delete-times :
    (panes : Layout) (removed : ℕ)
    → times removed panes.nodes ≡ 0
    → panes.active_pane_id ≢ removed
    → let after = pane_layout_compact_after_delete panes removed in
      ((id : ℕ) → times id after.nodes ≡ times (unshifted removed id) panes.nodes)
      × (times after.active_pane_id after.nodes ≡ times panes.active_pane_id panes.nodes)
      × ((id : ℕ) → after.next_pane_id ≤ id → times id after.nodes ≡ 0)
unfolding pane_layout_compact_after_delete pane_layout_next_id
pane_layout_compact_after_delete-times panes removed h ne =
    let after : List Node = shift_nodes removed panes.nodes in
    let active : ℕ = panes.active_pane_id in
    (
      λ id. times-shift_nodes removed id panes.nodes h,
      times-shift_nodes removed (shift_id removed active) panes.nodes h
          ∙ ap (λ id. times id panes.nodes) (restored removed active ne),
      λ id bound. (next_id-times id 1 after bound).1,
    )
  where
    restored : (removed id : ℕ) → id ≢ removed → unshifted removed (shift_id removed id) ≡ id
    restored removed id ne = ground arith
