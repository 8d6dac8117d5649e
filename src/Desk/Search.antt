-- ===== src/Desk/Search.antt =====
-- What the searches in the tree of a layout find, against the paths through the tree.
use cubicle.Desk.Nodes.{Node, node_at}
use cubicle.Desk.Tree.{Shape, gone, pane, halves, shape, shape_of}
use cubicle.Base.{ℕ, ◌⊎◌, List, some, Bool, Option, ◌≡◌, none, false, suc, true}

-- A node of the pane of this id that is reached from an index through at most so many levels.
pub data IsUnder (nodes : List Node) (id : ℕ) : ℕ → Option ℕ → ℕ → Type 0 where
  here :
      {h leaf : ℕ}
      → shape_of (node_at nodes leaf) ≡ pane id
      → IsUnder nodes id (suc h) (some leaf) leaf
  in_first :
      {h leaf : ℕ} {index : Option ℕ} {entry : Node}
      → shape nodes index ≡ halves entry
      → IsUnder nodes id h entry.first leaf
      → IsUnder nodes id (suc h) index leaf
  in_second :
      {h leaf : ℕ} {index : Option ℕ} {entry : Node}
      → shape nodes index ≡ halves entry
      → IsUnder nodes id h entry.second leaf
      → IsUnder nodes id (suc h) index leaf

-- What a search of so many levels answers: a pane that is under the index, or none where there is none.
unfoldable pub Answers : List Node → ℕ → ℕ → Option ℕ → Option ℕ → Bool → Type 0
Answers nodes id h index answer contained =
    ((leaf : ℕ) × (answer ≡ some leaf) × IsUnder nodes id h index leaf × (contained ≡ true))
    ⊎ ((answer ≡ none) × ((leaf : ℕ) → ¬ IsUnder nodes id h index leaf) × (contained ≡ false))

halves_of : Shape → Node → Node
halves_of (halves entry) other = entry
halves_of gone other = other
halves_of (pane p) other = other
