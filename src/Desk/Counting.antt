-- ===== src/Desk/Counting.antt =====
-- How many panes have an id, and how writing a node changes that.
use cubicle.Base.{
  ℕ, Option, none, some, ◌≡◌, inl, ◌∙◌, inr, List, false, ◌<◌, ◌==◌, if◌then◌else◌, length, refl,
  ◌∷◌, Bool-cases, zero, ◌+◌, suc, set, sym, [], arith, Bool, ap, ◌⊎◌, true, subst,
}
use cubicle.Desk.Nodes.{Node, node_at, free_node}
use cubicle.Desk.Tree.{first_of}
use cubicle.Desk.Tree.{Shape, pane, shape, shape_of, find_leaf, Shape-cases}

abbrev pub one_if : ℕ → ℕ → ℕ
one_if p id = if p == id then 1 else 0

abbrev pub shape_counts : ℕ → Shape → ℕ
shape_counts id (pane p) = one_if p id
shape_counts id _ = 0

unfoldable pub counts : ℕ → Node → ℕ
unfolding shape_of
counts id node = shape_counts id (shape_of node)

unfoldable pub times : ℕ → List Node → ℕ
unfolding counts
times id [] = 0
times id (node ∷ nodes) = counts id node + times id nodes

pub times-set :
    (id i : ℕ) (nodes : List Node) (node : Node)
    → i < length nodes
    → times id (set nodes i node) + counts id (node_at nodes i) ≡ times id nodes + counts id node
unfolding times
times-set id i [] node h = absurd (omega arith)
times-set id zero (old ∷ nodes) node h = omega arith
times-set id (suc i) (old ∷ nodes) node h = omega (arith, times-set id i nodes node (omega arith))

pub counts-unused : (id : ℕ) (node : Node) → node.used ≡ false → counts id node ≡ 0
unfolding counts shape_of
counts-unused id node h = rw h refl

pub free_node-some :
    (nodes : List Node) (start i : ℕ)
    → free_node nodes start ≡ some i
    → (k : ℕ) × (i ≡ start + k) × (k < length nodes) × ((node_at nodes k).used ≡ false)
unfolding free_node
free_node-some [] start i h = absurd (ground arith)
free_node-some (node ∷ nodes) start i h = elim (Bool-cases node.used) [
  | inl taken ↦
      let (k, e, inside, unused) = free_node-some nodes (start + 1) i (sym (rw taken refl) ∙ h) in
      let next : suc k ≡ k + 1 = omega arith in
      (
        k + 1,
        omega arith,
        omega arith,
        subst (λ j. (node_at (node ∷ nodes) j).used ≡ false) next unused,
      )
  | inr free ↦
      let here : some start ≡ some i = sym (rw free refl) ∙ h in
      (0, ground arith, omega arith, free)
]

if-some :
    (b : Bool) (x : Option ℕ) (y : ℕ) → (if b then x else none) ≡ some y → (b ≡ true) × (x ≡ some y)
if-some true x y h = (refl, h)
if-some false x y h = absurd (ground arith)

found_in-some : {x y : Option ℕ} {r : ℕ} → first_of x y ≡ some r → (x ≡ some r) ⊎ (y ≡ some r)
found_in-some {x = none} h = inr h
found_in-some {x = some a} h = inl h

-- The pane that a search finds is in the table, and has the id.
pub find_leaf-some :
    (nodes : List Node) (fuel : ℕ) (index : Option ℕ) (id leaf : ℕ)
    → find_leaf nodes fuel index id ≡ some leaf
    → shape_of (node_at nodes leaf) ≡ pane id
unfolding find_leaf shape
find_leaf-some nodes zero index id leaf h = absurd (ground arith)
find_leaf-some nodes (suc fuel) index id leaf h = elim (Shape-cases (shape nodes index)) [
  | inl e ↦
      let nowhere : find_leaf nodes (suc fuel) index id ≡ none = rw (find_leaf, e) refl in
      absurd (ground arith)
  | inr (inl (p, e)) ↦
      let found : (if p == id then index else none) ≡ some leaf =
        sym (rw (find_leaf, e) refl) ∙ h in
      let (same, here) = if-some (p == id) index leaf found in
      subst (λ o. shape nodes o ≡ pane p) here e ∙ ap pane (ground arith)
  | inr (inr (entry, e)) ↦
      let below : first_of (find_leaf nodes fuel entry.first id)
            (find_leaf nodes fuel entry.second id)
          ≡ some leaf =
        sym (rw (find_leaf, e) refl) ∙ h in
      elim (found_in-some below) [
        | inl f ↦ find_leaf-some nodes fuel entry.first id leaf f
        | inr s ↦ find_leaf-some nodes fuel entry.second id leaf s
      ]
]
