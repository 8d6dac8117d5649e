-- ===== src/Desk/Halves.antt =====
-- The nodes of the table when a pane is split: the two that are taken, and the ones that stay.
use cubicle.Desk.Edit.{half_label, give_back}
use cubicle.Base.{
  ℕ, Bytes, ◌∙◌, inr, ap, true, some, length, Option-cases, suc, zero, ◌<◌, ◌≢◌, List, ◌-◌,
  length-set, set, none, [], subst, ◌+◌, ◌⊎◌, get_or-set_ne, sym, arith, get_or-set_self, ◌≤◌, take,
  length-append, if◌then◌else◌, ◌++◌, ◌≡◌, ◌∷◌, refl, ◌==◌, false, inl, Bool-cases,
}
use cubicle.Desk.Nodes.{
  Node, unsplit, node_at, cleared_node, free_node, label_size, pane_create_leaf,
}
use cubicle.Desk.Counting.{free_node-some}

abbrev pub leaf_node : ℕ → Bytes → Node
leaf_node p label = record cleared_node {
  used = true;
  pane_id = p;
  label = take (label_size - 1) label;
}

-- How many nodes are not in use.
unfoldable pub free_count : List Node → ℕ
free_count [] = 0
free_count (node ∷ nodes) =
    let others = free_count nodes in if node.used then others else others + 1

free_node-none :
    (nodes : List Node) (start : ℕ) → free_node nodes start ≡ none → free_count nodes ≡ 0
unfolding free_node free_count
free_node-none [] start h = refl
free_node-none (node ∷ nodes) start h = elim (Bool-cases node.used) [
  | inl taken ↦ rw taken (free_node-none nodes (start + 1) (sym (rw taken refl) ∙ h))
  | inr free ↦ let here : some start ≡ none = sym (rw free refl) ∙ h in absurd (ground arith)
]

pub free_count-set :
    (nodes : List Node) (k : ℕ) (new : Node)
    → k < length nodes
    → (node_at nodes k).used ≡ false
    → new.used ≡ true
    → free_count (set nodes k new) + 1 ≡ free_count nodes
unfolding free_count
free_count-set [] k new inside free taken = absurd (omega arith)
free_count-set (node ∷ nodes) zero new inside free taken = rw (free, taken) refl
free_count-set (node ∷ nodes) (suc k) new inside free taken =
    let later = free_count-set nodes k new (omega arith) free taken in
    elim (Bool-cases node.used) [
      | inl here ↦ rw here later
      | inr here ↦ rw here (omega (arith, later))
    ]

-- What creating a leaf does: nothing without a free node, else it writes one node that was free.
pub pane_create_leaf_cases :
    (nodes : List Node) (p : ℕ) (label : Bytes)
    → ((pane_create_leaf nodes p label ≡ (none, nodes)) × (free_count nodes ≡ 0))
      ⊎ ((k : ℕ) × (pane_create_leaf nodes p label ≡ (some k, set nodes k (leaf_node p label)))
          × (k < length nodes)
          × ((node_at nodes k).used ≡ false))
unfolding pane_create_leaf
pane_create_leaf_cases nodes p label = elim (Option-cases (free_node nodes 0)) [
  | inl full ↦ inl (rw (full, pane_create_leaf) refl, free_node-none nodes 0 full)
  | inr (i, e) ↦
      let (k, same, inside, unused) = free_node-some nodes 0 i e in
      let here : k ≡ i = omega arith in
      inr (
        i,
        rw (e, pane_create_leaf) refl,
        omega arith,
        subst (λ j. (node_at nodes j).used ≡ false) here unused,
      )
]

-- A node is as before, or it is in use neither before nor after.
abbrev pub IsKept : List Node → List Node → Type 0
IsKept nodes nodes' =
    (i : ℕ)
    → (node_at nodes' i ≡ node_at nodes i)
      ⊎ (((node_at nodes i).used ≡ false) × ((node_at nodes' i).used ≡ false))

pub give_back-IsKept :
    (nodes : List Node) (k : ℕ) (new : Node)
    → k < length nodes
    → (node_at nodes k).used ≡ false
    → IsKept nodes (give_back (set nodes k new) (some k))
give_back-IsKept nodes k new inside free i = elim (Bool-cases (k == i)) [
  | inl here ↦
      let same : k ≡ i = ground arith in
      subst
        (λ i.
          (node_at (give_back (set nodes k new) (some k)) i ≡ node_at nodes i)
          ⊎ (((node_at nodes i).used ≡ false)
              × ((node_at (give_back (set nodes k new) (some k)) i).used ≡ false)))
        same
        (inr (
          free,
          ap (λ (node : Node). node.used)
              (get_or-set_self (set nodes k new) k _ cleared_node
                (omega (arith, length-set nodes k new))),
        ))
  | inr there ↦
      let other : k ≢ i = λ e. ground arith in
      inl (
        get_or-set_ne (set nodes k new) k i _ cleared_node other
        ∙ get_or-set_ne nodes k i new cleared_node other)
]

take-short : (n : ℕ) (s : Bytes) → length s ≤ n → take n s ≡ s
take-short zero [] h = refl
take-short zero (c ∷ s) h = absurd (omega arith)
take-short (suc n) [] h = refl
take-short (suc n) (c ∷ s) h = ap (λ t. c ∷ t) (take-short n s (omega arith))

pub half_label-none :
    (label suffix : Bytes) → half_label label suffix ≡ none → 64 ≤ length label + length suffix
half_label-none label suffix h = ground (arith, length-append label suffix)

-- A node of a pane with its whole label.
abbrev pub pane_node : ℕ → Bytes → Node
pane_node p label = record {
  used = true;
  pane_id = p;
  label = label;
  split = unsplit;
  first = some 0;
  second = some 0;
  split_size = 0;
}

pub half_label-some :
    (label suffix half : Bytes) (p : ℕ)
    → half_label label suffix ≡ some half
    → leaf_node p half ≡ pane_node p (label ++ suffix)
half_label-some label suffix half p h =
    let same : half ≡ label ++ suffix = ground (arith, h) in
    let short : length half ≤ 63 = ground (arith, h, length-append label suffix) in
    ap (λ t. pane_node p t) (take-short 63 half short ∙ same)

-- The nodes after two were taken and a third was written.
pub three_written :
    (nodes : List Node) (k j leaf : ℕ) (a b new : Node)
    → k < length nodes
    → j < length nodes
    → leaf < length nodes
    → k ≢ j
    → k ≢ leaf
    → j ≢ leaf
    → let nodes' = set (set (set nodes k a) j b) leaf new in
      (node_at nodes' k ≡ a)
      × (node_at nodes' j ≡ b)
      × (node_at nodes' leaf ≡ new)
      × ((i : ℕ) → (i ≡ k) ⊎ ((i ≡ j) ⊎ ((i ≡ leaf) ⊎ (node_at nodes' i ≡ node_at nodes i))))
three_written nodes k j leaf a b new in_k in_j in_leaf kj kl jl =
    let one = set nodes k a in
    let two = set one j b in
    (
      get_or-set_ne two leaf k new cleared_node (λ e. kl (sym e))
          ∙ get_or-set_ne one j k b cleared_node (λ e. kj (sym e))
          ∙ get_or-set_self nodes k a cleared_node in_k,
      get_or-set_ne two leaf j new cleared_node (λ e. jl (sym e))
          ∙ get_or-set_self one j b cleared_node (omega (arith, length-set nodes k a)),
      get_or-set_self two leaf new cleared_node
          (omega (arith, length-set nodes k a, length-set one j b)),
      λ i. elim (Bool-cases (k == i)) [
        | inl e ↦ inl (ground arith)
        | inr not_k ↦ elim (Bool-cases (j == i)) [
          | inl e ↦ inr (inl (ground arith))
          | inr not_j ↦ elim (Bool-cases (leaf == i)) [
            | inl e ↦ inr (inr (inl (ground arith)))
            | inr not_leaf ↦ inr (
                inr (
                  inr (
                    get_or-set_ne two leaf i new cleared_node (λ e. ground arith)
                    ∙ get_or-set_ne one j i b cleared_node (λ e. ground arith)
                    ∙ get_or-set_ne nodes k i a cleared_node (λ e. ground arith))))
          ]
        ]
      ],
    )
