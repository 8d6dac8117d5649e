-- ===== src/Desk/Leaves.antt =====
-- How the two leaves of a split change the number of panes of each id.
use cubicle.Desk.Transpose.{is_split}
use cubicle.Desk.Halves.{leaf_node}
use cubicle.Desk.Edit.{give_back}
use cubicle.Base.{
  ℕ, some, ◌≡◌, set, List, [], true, arith, ◌∙◌, ap, suc, subst, length, if◌then◌else◌,
  get_or-set_self, ◌≢◌, ◌∷◌, zero, refl, false, Bytes, length-set, ◌<◌, ◌+◌, Bool, not,
  get_or-set_ne,
}
use cubicle.Desk.Nodes.{Node, Split, unsplit, horizontal, vertical, node_at, cleared_node}
use cubicle.Desk.Tree.{Shape, gone, pane, halves, shape_of}
use cubicle.Desk.Counting.{one_if, shape_counts, counts, times, times-set, counts-unused}

counts-pane : (id p : ℕ) (node : Node) → shape_of node ≡ pane p → counts id node ≡ one_if p id
unfolding counts
counts-pane id p node h = rw (counts, h) refl

times-leaf :
    (id k p : ℕ) (nodes : List Node) (label : Bytes)
    → k < length nodes
    → (node_at nodes k).used ≡ false
    → times id (set nodes k (leaf_node p label)) ≡ times id nodes + one_if p id
times-leaf id k p nodes label inside unused = omega (
  arith,
  times-set id k nodes (leaf_node p label) inside,
  counts-unused id (node_at nodes k) unused,
  counts-pane id p (leaf_node p label) (unfold shape_of in refl),
)

-- A node that was created and is given back counts no more.
pub times-give_back :
    (id k p : ℕ) (nodes : List Node) (label : Bytes)
    → k < length nodes
    → (node_at nodes k).used ≡ false
    → times id (give_back (set nodes k (leaf_node p label)) (some k)) ≡ times id nodes
times-give_back id k p nodes label inside unused =
    let created = set nodes k (leaf_node p label) in
    let back = record (node_at created k) { used = false } in
    omega (
      arith,
      times-leaf id k p nodes label inside unused,
      times-set id k created back (omega (arith, length-set nodes k (leaf_node p label))),
      counts-unused id back refl,
      counts-pane id p (node_at created k) (
          ap shape_of (get_or-set_self nodes k (leaf_node p label) cleared_node inside)
          ∙ unfold shape_of in refl),
    )

pub used-inside :
    (nodes : List Node) (i p : ℕ) → shape_of (node_at nodes i) ≡ pane p → i < length nodes
unfolding shape_of
used-inside [] i p h = absurd (ground arith)
used-inside (node ∷ nodes) zero p h = omega arith
used-inside (node ∷ nodes) (suc i) p h = omega (arith, used-inside nodes i p h)

-- What is free is not the pane of another node.
pub apart_from_pane :
    (nodes : List Node) (i k p : ℕ)
    → shape_of (node_at nodes i) ≡ pane p
    → (node_at nodes k).used ≡ false
    → k ≢ i
unfolding shape_of
apart_from_pane nodes i k p h unused e =
    let free : (node_at nodes i).used ≡ false =
      subst (λ j. (node_at nodes j).used ≡ false) e unused in
    let nothing : shape_of (node_at nodes i) ≡ gone = rw free refl in absurd (ground arith)

-- A node that was taken is not free any more.
pub apart_from_taken :
    (nodes : List Node) (k j : ℕ) (new : Node)
    → k < length nodes
    → new.used ≡ true
    → (node_at (set nodes k new) j).used ≡ false
    → k ≢ j
apart_from_taken nodes k j new inside taken free e =
    let same : (node_at (set nodes k new) j).used ≡ true =
      subst (λ i. (node_at (set nodes k new) i).used ≡ true) e
        (ap (λ (node : Node). node.used) (get_or-set_self nodes k new cleared_node inside)
          ∙ taken) in
    absurd (ground arith)

halves_or_gone :
    (used : Bool) (split : Split) (node : Node) (p id : ℕ)
    → is_split split ≡ true
    → let s : Shape =
        if not used then gone else elim split [ unsplit ↦ pane p | _ ↦ halves node ] in
      shape_counts id s ≡ 0
halves_or_gone false split node p id h = refl
halves_or_gone true unsplit node p id h = absurd (ground arith)
halves_or_gone true horizontal node p id h = refl
halves_or_gone true vertical node p id h = refl

counts-split : (id : ℕ) (node : Node) → is_split node.split ≡ true → counts id node ≡ 0
unfolding counts shape_of
counts-split id node h = halves_or_gone node.used node.split node node.pane_id id h

-- A pane that becomes a split of two new leaves, of which one takes its id.
pub two_leaves :
    (nodes : List Node) (leaf k j p next id : ℕ) (label1 label2 : Bytes) (new : Node)
    → shape_of (node_at nodes leaf) ≡ pane p
    → k < length nodes
    → (node_at nodes k).used ≡ false
    → let nodes1 = set nodes k (leaf_node p label1) in
      j < length nodes1
      → (node_at nodes1 j).used ≡ false
      → is_split new.split ≡ true
      → times id (set (set nodes1 j (leaf_node next label2)) leaf new)
        ≡ times id nodes + one_if next id
two_leaves nodes leaf k j p next id label1 label2 new here inside1 free1 inside2 free2 way =
    let nodes1 = set nodes k (leaf_node p label1) in
    let nodes2 = set nodes1 j (leaf_node next label2) in
    let here1 : shape_of (node_at nodes1 leaf) ≡ pane p =
      ap shape_of (
        get_or-set_ne nodes k leaf (leaf_node p label1) cleared_node
          (apart_from_pane nodes leaf k p here free1))
      ∙ here in
    let here2 : shape_of (node_at nodes2 leaf) ≡ pane p =
      ap shape_of (
        get_or-set_ne nodes1 j leaf (leaf_node next label2) cleared_node
          (apart_from_pane nodes1 leaf j p here1 free2))
      ∙ here1 in
    omega (
      arith,
      times-leaf id k p nodes label1 inside1 free1,
      times-leaf id j next nodes1 label2 inside2 free2,
      times-set id leaf nodes2 new (used-inside nodes2 leaf p here2),
      counts-pane id p (node_at nodes2 leaf) here2,
      counts-split id new way,
    )
