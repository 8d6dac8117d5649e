-- ===== src/Desk/Splitting.antt =====
-- Splitting a pane: what becomes of the table of nodes, and why it fails.
use cubicle.Desk.Leaves.{
  times-give_back, two_leaves, apart_from_pane, used-inside, apart_from_taken,
}
use cubicle.Desk.Transpose.{is_split}
use cubicle.Desk.Halves.{
  leaf_node, pane_node, free_count, IsKept, half_label-none, three_written, free_count-set,
  pane_create_leaf_cases, give_back-IsKept, half_label-some,
}
use cubicle.Desk.Edit.{split_leaf, pane_layout_split, half_label}
use cubicle.Base.{
  ℕ, none, some, ◌≡◌, set, List, true, arith, ◌∙◌, ap, Option-cases, length, if◌then◌else◌, ◌≢◌,
  inr, refl, false, Bytes, length-set, ◌⊎◌, ◌<◌, ◌+◌, inl, Bool, not, codes, get_or-set_ne, ◌≤◌,
  ◌++◌, sym,
}
use cubicle.Desk.Nodes.{
  Node, Layout, Split, unsplit, horizontal, vertical, node_at, cleared_node, max_nodes,
}
use cubicle.Desk.Nodes.{pane_create_leaf}
use cubicle.Desk.Tree.{Shape, gone, pane, halves, shape_of, pane_find_leaf_node}
use cubicle.Desk.Counting.{one_if, times, find_leaf-some}

-- What a split that succeeds does to the table: two nodes that were free hold the pane that was split
-- and the new one, with the labels of the halves; the node of the pane splits into these two; the other
-- nodes stay.
abbrev pub TakesHalves : Layout → Split → ℕ → List Node → Type 0
TakesHalves panes split leaf nodes =
    let entry = node_at panes.nodes leaf in
    (k : ℕ) × (j : ℕ) × (k ≢ j)
    × ((node_at panes.nodes k).used ≡ false)
    × ((node_at panes.nodes j).used ≡ false)
    × (node_at nodes k ≡ pane_node panes.active_pane_id (entry.label ++ codes ".1"))
    × (node_at nodes j ≡ pane_node panes.next_pane_id (entry.label ++ codes ".2"))
    × (node_at nodes leaf ≡ record entry {
      split = split;
      first = some k;
      second = some j;
      split_size = 0;
      pane_id = 0;
    })
    × ((i : ℕ) → (i ≡ k) ⊎ ((i ≡ j) ⊎ ((i ≡ leaf) ⊎ (node_at nodes i ≡ node_at panes.nodes i))))

-- What a split promises. With success the active pane is found, becomes the first half, the second half
-- has the next id and is active, and one pane is added. Failure keeps the layout but for nodes that are
-- not in use, and has one of three reasons: the active pane is not found, its label has no room for two
-- bytes more and the terminator, or fewer than two nodes are free.
unfoldable pub Splits : Layout → Split → Layout × Bool → Type 0
Splits panes split result =
    ((result.1 ≡ true)
      × ((leaf : ℕ) × (pane_find_leaf_node panes.nodes panes.root panes.active_pane_id ≡ some leaf)
          × TakesHalves panes split leaf result.0.nodes)
      × ((id : ℕ) → times id result.0.nodes ≡ times id panes.nodes + one_if panes.next_pane_id id)
      × (result.0 ≡ record panes {
        nodes = result.0.nodes;
        next_pane_id = panes.next_pane_id + 1;
        active_pane_id = panes.next_pane_id;
      }))
    ⊎ ((result.1 ≡ false)
        × ((pane_find_leaf_node panes.nodes panes.root panes.active_pane_id ≡ none)
            ⊎ ((leaf : ℕ) × (pane_find_leaf_node panes.nodes panes.root panes.active_pane_id
                  ≡ some leaf)
                × ((64 ≤ length (node_at panes.nodes leaf).label + 2)
                    ⊎ (free_count panes.nodes < 2))))
        × IsKept panes.nodes result.0.nodes
        × ((id : ℕ) → times id result.0.nodes ≡ times id panes.nodes)
        × (result.0 ≡ record panes { nodes = result.0.nodes }))

by_fields :
    (used : Bool) (split : Split) (node : Node) (q p : ℕ)
    → let s : Shape =
        if not used then gone else elim split [ unsplit ↦ pane q | _ ↦ halves node ] in
      s ≡ pane p → q ≡ p
by_fields false split node q p h = absurd (ground arith)
by_fields true unsplit node q p h = ground arith
by_fields true horizontal node q p h = absurd (ground arith)
by_fields true vertical node q p h = absurd (ground arith)

pane_id_of : (node : Node) (p : ℕ) → shape_of node ≡ pane p → node.pane_id ≡ p
unfolding shape_of
pane_id_of node p h = by_fields node.used node.split node node.pane_id p h

module _ (panes : Layout) (split : Split) (leaf : ℕ) (label1 label2 : Bytes)
    (way : is_split split ≡ true)
    (found : pane_find_leaf_node panes.nodes panes.root panes.active_pane_id ≡ some leaf)
    (here : shape_of (node_at panes.nodes leaf) ≡ pane panes.active_pane_id)
    (half1 : half_label (node_at panes.nodes leaf).label (codes ".1") ≡ some label1)
    (half2 : half_label (node_at panes.nodes leaf).label (codes ".2") ≡ some label2) where
  -- The nodes that are taken, at the time of each.
  both-TakesHalves :
      (k j : ℕ)
      → k < length panes.nodes
      → (node_at panes.nodes k).used ≡ false
      → let nodes1 = set panes.nodes k (leaf_node panes.active_pane_id label1) in
        j < length nodes1
        → (node_at nodes1 j).used ≡ false
        → let nodes2 = set nodes1 j (leaf_node panes.next_pane_id label2) in
          TakesHalves panes split leaf (
            set nodes2 leaf (record (node_at nodes2 leaf) {
              split = split;
              first = some k;
              second = some j;
              split_size = 0;
              pane_id = 0;
            }))
  both-TakesHalves k j inside1 free1 inside2 free2 =
      let a = leaf_node panes.active_pane_id label1 in
      let b = leaf_node panes.next_pane_id label2 in
      let nodes1 = set panes.nodes k a in
      let k_leaf = apart_from_pane panes.nodes leaf k panes.active_pane_id here free1 in
      let here1 : shape_of (node_at nodes1 leaf) ≡ pane panes.active_pane_id =
        ap shape_of (get_or-set_ne panes.nodes k leaf a cleared_node k_leaf) ∙ here in
      let j_leaf = apart_from_pane nodes1 leaf j panes.active_pane_id here1 free2 in
      let k_j = apart_from_taken panes.nodes k j a inside1 refl free2 in
      let entry2 : node_at (set nodes1 j b) leaf ≡ node_at panes.nodes leaf =
        get_or-set_ne nodes1 j leaf b cleared_node j_leaf
        ∙ get_or-set_ne panes.nodes k leaf a cleared_node k_leaf in
      let free_j : (node_at panes.nodes j).used ≡ false =
        ap (λ (node : Node). node.used) (sym (get_or-set_ne panes.nodes k j a cleared_node k_j))
        ∙ free2 in
      let (at_k, at_j, at_leaf, others) =
        three_written panes.nodes k j leaf a b _ inside1 (omega (arith, length-set panes.nodes k a))
          (used-inside panes.nodes leaf panes.active_pane_id here) k_j k_leaf j_leaf in
      (
        k,
        j,
        k_j,
        free1,
        free_j,
        at_k
            ∙ half_label-some (node_at panes.nodes leaf).label (codes ".1") label1
                panes.active_pane_id half1,
        at_j
            ∙ half_label-some (node_at panes.nodes leaf).label (codes ".2") label2
                panes.next_pane_id half2,
        at_leaf
            ∙ ap
                (λ (entry : Node). record entry {
                  split = split;
                  first = some k;
                  second = some j;
                  split_size = 0;
                  pane_id = 0;
                })
                entry2,
        others,
      )

  both-Splits :
      (k j : ℕ)
      → pane_create_leaf panes.nodes panes.active_pane_id label1
        ≡ (some k, set panes.nodes k (leaf_node panes.active_pane_id label1))
      → k < length panes.nodes
      → (node_at panes.nodes k).used ≡ false
      → let nodes1 = set panes.nodes k (leaf_node panes.active_pane_id label1) in
        pane_create_leaf nodes1 panes.next_pane_id label2
          ≡ (some j, set nodes1 j (leaf_node panes.next_pane_id label2))
        → j < length nodes1
        → (node_at nodes1 j).used ≡ false
        → Splits panes split (split_leaf panes split leaf panes.active_pane_id label1 label2)
  unfolding split_leaf Splits
  both-Splits k j e1 inside1 free1 e2 inside2 free2 =
      rw (split_leaf, e1)
        (rw e2 (
          inl (
            refl,
            (leaf, found, both-TakesHalves k j inside1 free1 inside2 free2),
            λ id.
                two_leaves panes.nodes leaf k j panes.active_pane_id panes.next_pane_id id label1
                  label2 _ here inside1 free1 inside2 free2 way,
            refl,
          )))

  -- Without a second free node, the first is given back.
  one-Splits :
      (k : ℕ)
      → pane_create_leaf panes.nodes panes.active_pane_id label1
        ≡ (some k, set panes.nodes k (leaf_node panes.active_pane_id label1))
      → k < length panes.nodes
      → (node_at panes.nodes k).used ≡ false
      → let nodes1 = set panes.nodes k (leaf_node panes.active_pane_id label1) in
        pane_create_leaf nodes1 panes.next_pane_id label2 ≡ (none, nodes1)
        → free_count nodes1 ≡ 0
        → Splits panes split (split_leaf panes split leaf panes.active_pane_id label1 label2)
  unfolding split_leaf Splits
  one-Splits k e1 inside1 free1 e2 full =
      let few =
        free_count-set panes.nodes k (leaf_node panes.active_pane_id label1) inside1 free1 refl in
      rw (split_leaf, e1)
        (rw e2 (
          inr (
            refl,
            inr (leaf, found, inr (omega arith)),
            give_back-IsKept panes.nodes k (leaf_node panes.active_pane_id label1) inside1 free1,
            λ id. times-give_back id k panes.active_pane_id panes.nodes label1 inside1 free1,
            refl,
          )))

  split_leaf-Splits :
      Splits panes split (split_leaf panes split leaf panes.active_pane_id label1 label2)
  unfolding split_leaf Splits
  split_leaf-Splits = elim (pane_create_leaf_cases panes.nodes panes.active_pane_id label1) [
    | inl (full1, none_free) ↦ elim (pane_create_leaf_cases panes.nodes panes.next_pane_id label2) [
      | inl (full2, _) ↦
          rw (split_leaf, full1)
            (rw full2
              (inr (refl, inr (leaf, found, inr (omega arith)), λ i. inl refl, λ id. refl, refl)))
      | inr (j, e2, inside2, free2) ↦ absurd (
          omega (
            arith,
            free_count-set panes.nodes j (leaf_node panes.next_pane_id label2) inside2 free2 refl,
          ))
    ]
    | inr (k, e1, inside1, free1) ↦
        elim (pane_create_leaf_cases (set panes.nodes k (leaf_node panes.active_pane_id label1))
          panes.next_pane_id label2) [
            | inl (full2, none_free) ↦ one-Splits k e1 inside1 free1 full2 none_free
            | inr (j, e2, inside2, free2) ↦ both-Splits k j e1 inside1 free1 e2 inside2 free2
          ]
  ]

unchanged :
    (panes : Layout) (split : Split)
    → (pane_find_leaf_node panes.nodes panes.root panes.active_pane_id ≡ none)
      ⊎ ((leaf : ℕ) × (pane_find_leaf_node panes.nodes panes.root panes.active_pane_id ≡ some leaf)
          × ((64 ≤ length (node_at panes.nodes leaf).label + 2) ⊎ (free_count panes.nodes < 2)))
    → Splits panes split (panes, false)
unfolding Splits
unchanged panes split reason = inr (refl, reason, λ i. inl refl, λ id. refl, refl)

-- Splitting the active pane adds one pane, with the next id, and makes it active: two free nodes hold the
-- pane that was split and the new one, with `.1` and `.2` behind the label, the node of the pane splits
-- into them, and all other nodes and ids stay. It fails only where the active pane is not found, its label
-- has more than 61 bytes, or fewer than two nodes are free; then only nodes that are not in use change.
pub pane_layout_split-Splits :
    (panes : Layout) (split : Split)
    → is_split split ≡ true
    → Splits panes split (pane_layout_split panes split)
unfolding pane_layout_split
pane_layout_split-Splits panes split way =
    elim (Option-cases (pane_find_leaf_node panes.nodes panes.root panes.active_pane_id)) [
      | inl nowhere ↦ rw (pane_layout_split, nowhere) (unchanged panes split (inl nowhere))
      | inr (leaf, found) ↦
          let entry = node_at panes.nodes leaf in
          let here =
            find_leaf-some panes.nodes max_nodes panes.root panes.active_pane_id leaf found in
          elim (Option-cases (half_label entry.label (codes ".1"))) [
            | inl long ↦
                rw (pane_layout_split, found)
                  (rw long (too_long panes split leaf (codes ".1") found long refl))
            | inr (label1, e1) ↦ elim (Option-cases (half_label entry.label (codes ".2"))) [
              | inl long ↦
                  rw (pane_layout_split, found)
                    (rw e1 (rw long (too_long panes split leaf (codes ".2") found long refl)))
              | inr (label2, e2) ↦
                  rw (pane_layout_split, found)
                    (rw e1 (
                      rw e2 (
                        rw (pane_id_of entry panes.active_pane_id here)
                          (split_leaf-Splits panes split leaf label1 label2 way found here e1 e2))))
            ]
          ]
    ]
  where
    too_long :
        (panes : Layout) (split : Split) (leaf : ℕ) (suffix : Bytes)
        → pane_find_leaf_node panes.nodes panes.root panes.active_pane_id ≡ some leaf
        → half_label (node_at panes.nodes leaf).label suffix ≡ none
        → length suffix ≡ 2
        → Splits panes split (panes, false)
    too_long panes split leaf suffix found long two =
        let full = half_label-none (node_at panes.nodes leaf).label suffix long in
        unchanged panes split (inr (leaf, found, inl (omega arith)))
