-- ===== src/Desk/Apart.antt =====
-- The rectangles of different panes on one screen.
use cubicle.Base.{
  ℕ, Option, none, some, inr, refl, ◌≤◌, arith, ◌⊎◌, suc, ◌==◌, inl, Bool-cases, false, ◌≡◌,
  Option-cases, if◌then◌else◌, subst, ◌∙◌, zero, ◌+◌, Bool, true, sym, ◌≢◌,
}
use cubicle.Desk.Nodes.{Node, Layout, max_nodes}
use cubicle.Desk.Tree.{shape, first_of, Shape-cases}
use cubicle.Desk.Rects.{
  Rect, split_rect, rect_for_node, pane_layout_rect_for_pane, zoomed_half, is_empty_rect,
}
use cubicle.Desk.Tiling.{IsInside, IsApart, split_rect-Tiles}

shown : (rect : Rect) → is_empty_rect rect ≡ false → (1 ≤ rect.rows) × (1 ≤ rect.cols)
shown rect h = (ground arith, ground arith)

none-some_ne : {a : Rect} → none ≢ some a
none-some_ne h = ground arith

first_of-some : {x y : Option Rect} {r : Rect} → first_of x y ≡ some r → (x ≡ some r) ⊎ (y ≡ some r)
first_of-some {x = none} h = inr h
first_of-some {x = some a} h = inl h

some_if : (b : Bool) {x y : Rect} → (if b then some x else none) ≡ some y → x ≡ y
some_if true h = ground arith
some_if false h = absurd (none-some_ne h)

one_pane :
    (p a b : ℕ) (rect : Rect) {x y : Rect}
    → (if p == a then some rect else none) ≡ some x
    → (if p == b then some rect else none) ≡ some y
    → a ≡ b
one_pane p a b rect ha hb = ground arith

IsInside-trans : (a b c : Rect) → IsInside a b → IsInside b c → IsInside a c
IsInside-trans a b c h k = (omega arith, omega arith, omega arith, omega arith)

IsApart-sym : (a b : Rect) → IsApart a b → IsApart b a
IsApart-sym a b h = ground arith

-- What lies in rectangles that are apart is apart.
IsApart-inside :
    (a b in_a in_b : Rect) → IsApart a b → IsInside in_a a → IsInside in_b b → IsApart in_a in_b
IsApart-inside a b in_a in_b h ha hb = ground arith

module _ (panes : Layout) where
  -- What a node makes of a rectangle, for every pane that is looked for.
  Outcome : ℕ → Option ℕ → Rect → Type 0
  Outcome fuel index rect =
      ((id : ℕ) → rect_for_node panes (suc fuel) index id rect ≡ none)
      ⊎ (((p : ℕ) × ((id : ℕ)
              → rect_for_node panes (suc fuel) index id rect
                ≡ (if p == id then some rect else none)))
          ⊎ (((half : Option ℕ) × ((id : ℕ)
                  → rect_for_node panes (suc fuel) index id rect
                    ≡ rect_for_node panes fuel half id rect))
              ⊎ ((entry : Node) × (1 ≤ rect.rows)
                  × (1 ≤ rect.cols)
                  × ((id : ℕ)
                      → rect_for_node panes (suc fuel) index id rect
                        ≡ first_of
                            (rect_for_node panes fuel entry.first id (split_rect rect entry).0)
                            (rect_for_node panes fuel entry.second id (split_rect rect entry).1)))))

  outcome : (fuel : ℕ) (index : Option ℕ) (rect : Rect) → Outcome fuel index rect
  unfolding Outcome rect_for_node
  outcome fuel index rect = elim (Bool-cases (is_empty_rect rect)) [
    | inl empty ↦ inl (λ id. rw (rect_for_node, empty) refl)
    | inr some_cells ↦ elim (Shape-cases (shape panes.nodes index)) [
      | inl e ↦ inl (λ id. rw (rect_for_node, some_cells) (rw e refl))
      | inr (inl (p, e)) ↦ inr (inl (p, λ id. rw (rect_for_node, some_cells) (rw e refl)))
      | inr (inr (entry, e)) ↦ elim (Option-cases (zoomed_half panes entry)) [
        | inl whole ↦
            let (rows, cols) = shown rect some_cells in
            inr (
              inr (
                inr
                  (entry, rows, cols, λ id. rw (rect_for_node, some_cells) (rw e (rw whole refl)))))
        | inr (half, zoomed) ↦
            inr (inr (inl (half, λ id. rw (rect_for_node, some_cells) (rw e (rw zoomed refl)))))
      ]
    ]
  ]

  rect_for_node-IsInside :
      (fuel : ℕ) (index : Option ℕ) (id : ℕ) (rect found : Rect)
      → rect_for_node panes fuel index id rect ≡ some found
      → IsInside found rect
  unfolding rect_for_node Outcome
  rect_for_node-IsInside zero index id rect found h = absurd (none-some_ne h)
  rect_for_node-IsInside (suc fuel) index id rect found h = elim (outcome fuel index rect) [
    | inl nowhere ↦ absurd (none-some_ne (sym (nowhere id) ∙ h))
    | inr (inl (p, e)) ↦
        subst (λ r. IsInside r rect) (some_if (p == id) (sym (e id) ∙ h))
          (omega arith, omega arith, omega arith, omega arith)
    | inr (inr (inl (half, e))) ↦ rect_for_node-IsInside fuel half id rect found (sym (e id) ∙ h)
    | inr (inr (inr (entry, rows, cols, e))) ↦
        let parts = split_rect rect entry in
        let (tiles, first_in, second_in, apart, rest) = split_rect-Tiles rect entry rows cols in
        elim (first_of-some (sym (e id) ∙ h)) [
          | inl f ↦
              IsInside-trans found parts.0 rect
                (rect_for_node-IsInside fuel entry.first id parts.0 found f) first_in
          | inr s ↦
              IsInside-trans found parts.1 rect
                (rect_for_node-IsInside fuel entry.second id parts.1 found s) second_in
        ]
  ]

  rect_for_node-IsApart :
      (fuel : ℕ) (index : Option ℕ) (a b : ℕ) (rect at_a at_b : Rect)
      → a ≢ b
      → rect_for_node panes fuel index a rect ≡ some at_a
      → rect_for_node panes fuel index b rect ≡ some at_b
      → IsApart at_a at_b
  unfolding rect_for_node Outcome
  rect_for_node-IsApart zero index a b rect at_a at_b ne ha hb = absurd (none-some_ne ha)
  rect_for_node-IsApart (suc fuel) index a b rect at_a at_b ne ha hb =
      elim (outcome fuel index rect) [
        | inl nowhere ↦ absurd (none-some_ne (sym (nowhere a) ∙ ha))
        | inr (inl (p, e)) ↦ absurd (ne (one_pane p a b rect (sym (e a) ∙ ha) (sym (e b) ∙ hb)))
        | inr (inr (inl (half, e))) ↦
            rect_for_node-IsApart fuel half a b rect at_a at_b ne (sym (e a) ∙ ha) (sym (e b) ∙ hb)
        | inr (inr (inr (entry, rows, cols, e))) ↦
            let parts = split_rect rect entry in
            let (tiles, first_in, second_in, apart, rest) = split_rect-Tiles rect entry rows cols in
            elim (first_of-some (sym (e a) ∙ ha)) [
              | inl fa ↦ elim (first_of-some (sym (e b) ∙ hb)) [
                | inl fb ↦ rect_for_node-IsApart fuel entry.first a b parts.0 at_a at_b ne fa fb
                | inr sb ↦
                    IsApart-inside parts.0 parts.1 at_a at_b apart
                      (rect_for_node-IsInside fuel entry.first a parts.0 at_a fa)
                      (rect_for_node-IsInside fuel entry.second b parts.1 at_b sb)
              ]
              | inr sa ↦ elim (first_of-some (sym (e b) ∙ hb)) [
                | inl fb ↦ IsApart-sym at_b at_a (
                    IsApart-inside parts.0 parts.1 at_b at_a apart
                      (rect_for_node-IsInside fuel entry.first b parts.0 at_b fb)
                      (rect_for_node-IsInside fuel entry.second a parts.1 at_a sa))
                | inr sb ↦ rect_for_node-IsApart fuel entry.second a b parts.1 at_a at_b ne sa sb
              ]
            ]
      ]

-- Whatever the tree, the zoom and the sizes are, a pane that is shown lies on the screen, and a row or a
-- column is free between any two panes that are shown.
pub pane_layout_rect_for_pane-IsApart :
    (panes : Layout) (rows cols a b : ℕ) (at_a at_b : Rect)
    → a ≢ b
    → pane_layout_rect_for_pane panes rows cols a ≡ some at_a
    → pane_layout_rect_for_pane panes rows cols b ≡ some at_b
    → IsApart at_a at_b × (at_a.row + at_a.rows ≤ rows) × (at_a.col + at_a.cols ≤ cols)
unfolding pane_layout_rect_for_pane
pane_layout_rect_for_pane-IsApart panes rows cols a b at_a at_b ne ha hb =
    let screen : Rect = record { row = 0; col = 0; rows = rows; cols = cols } in
    let (top, bottom, left, right) =
      rect_for_node-IsInside panes max_nodes panes.root a screen at_a ha in
    (
      rect_for_node-IsApart panes max_nodes panes.root a b screen at_a at_b ne ha hb,
      omega arith,
      omega arith,
    )
