-- ===== src/Desk/AutoGrid.antt =====
-- The grids that are set up: which there are, and what they hold.
use cubicle.Desk.Tree.{pane_find_leaf_node, pane_layout_leaf_count, is_found}
use cubicle.Json.Sequence.{and_left, and_right}
use native.Mathlib.Nat.{suc-mul, mod-lt, div-add-mod', le-mul_of_pos_right, mul_comm, suc-mul}
use cubicle.Base.{
  ℕ, Option, none, some, ◌≡◌, zero, Bool, ◌+◌, ◌==◌, suc, true, ◌&&◌, false, refl, ◌≤◌, ◌||◌, inl,
  ltb, ◌<◌, ◌*◌, inr, subst, if◌then◌else◌, arith, ==_iff, Bool-cases, sym, ltb→lt, ltb→ge, ◌-◌,
  ◌⊎◌, ◌/◌, leb, ◌%◌, leb→le, ap,
}
use cubicle.Desk.Nodes.{Layout}
use cubicle.Desk.Grid.{pane_layout_grid, desk_auto_grid, grow_cols}
use cubicle.Desk.Counting.{times}

-- Each of the ids from 1 to `n` stands once in the table, and is found from the root.
unfoldable pub ids_upto : Layout → ℕ → Bool
unfolding times pane_find_leaf_node
ids_upto panes zero = true
ids_upto panes (suc n) =
    (times (suc n) panes.nodes == 1
      && is_found (pane_find_leaf_node panes.nodes panes.root (suc n)))
    && ids_upto panes n

unfoldable pub is_complete : Option Layout → ℕ → Bool
unfolding ids_upto pane_layout_leaf_count
is_complete none n = false
is_complete (some panes) n =
    ids_upto panes n
    && (pane_layout_leaf_count panes.nodes == n
        && (panes.next_pane_id == n + 1 && panes.active_pane_id == 1))

-- What it is for a layout to hold the panes from 1 to `n`.
abbrev pub Holds : ℕ → Layout → Type 0
Holds n panes =
    ((id : ℕ)
      → 0 < id
      → id ≤ n
      → (times id panes.nodes ≡ 1)
        × (is_found (pane_find_leaf_node panes.nodes panes.root id) ≡ true))
    × (pane_layout_leaf_count panes.nodes ≡ n)
    × (panes.next_pane_id ≡ n + 1)
    × (panes.active_pane_id ≡ 1)

one_less : (id n : ℕ) → id ≤ suc n → (id == suc n) ≡ false → id ≤ n
one_less id n h k = ground arith

ids_upto_sound :
    (panes : Layout) (n id : ℕ)
    → ids_upto panes n ≡ true
    → 0 < id
    → id ≤ n
    → (times id panes.nodes ≡ 1) × (is_found (pane_find_leaf_node panes.nodes panes.root id) ≡ true)
unfolding ids_upto
ids_upto_sound panes zero id h pos most = absurd (omega arith)
ids_upto_sound panes (suc n) id h pos most =
    let here = and_left _ (ids_upto panes n) h in
    elim (Bool-cases (id == suc n)) [
      | inl last ↦
          let same : suc n ≡ id = sym ((==_iff id (suc n)).0 last) in
          subst
            (λ k.
              (times k panes.nodes ≡ 1)
              × (is_found (pane_find_leaf_node panes.nodes panes.root k) ≡ true))
            same
            ((==_iff _ 1).0 (and_left _ _ here), and_right (times (suc n) panes.nodes == 1) _ here)
      | inr below ↦
          ids_upto_sound panes n id (and_right _ (ids_upto panes n) h) pos
            (one_less id n most below)
    ]

is_complete-Holds :
    (made : Option Layout) (n : ℕ)
    → is_complete made n ≡ true
    → (panes : Layout) × (made ≡ some panes) × Holds n panes
unfolding is_complete
is_complete-Holds none n h = absurd (ground arith)
is_complete-Holds (some panes) n h =
    let ids = and_left (ids_upto panes n) _ h in
    let rest = and_right (ids_upto panes n) _ h in
    let fields = and_right (pane_layout_leaf_count panes.nodes == n) _ rest in
    (
      panes,
      refl,
      (
        λ id pos most. ids_upto_sound panes n id ids pos most,
        (==_iff _ n).0 (and_left _ _ rest),
        (==_iff _ (n + 1)).0 (and_left _ _ fields),
        (==_iff _ 1).0 (and_right (panes.next_pane_id == n + 1) _ fields),
      ),
    )

-- A test of each number below a bound.
abbrev below : ℕ → (ℕ → Bool) → Bool
below zero test = true
below (suc n) test = test n && below n test

below_sound : (n k : ℕ) (test : ℕ → Bool) → below n test ≡ true → k < n → test k ≡ true
below_sound zero k test h small = absurd (omega arith)
below_sound (suc n) k test h small = elim (Bool-cases (k == n)) [
  | inl last ↦ subst (λ j. test j ≡ true) (sym ((==_iff k n).0 last)) (and_left _ (below n test) h)
  | inr before ↦ below_sound n k test (and_right (test n) _ h) (ground arith)
]

abbrev grid_complete : ℕ → ℕ → Bool
unfolding is_complete
grid_complete rows cols =
    if rows == 0 || (cols == 0 || ltb 16 (rows * cols))
    then true
    else is_complete (pane_layout_grid rows cols) (rows * cols)

all_grids : below 17 (λ rows. below 17 (λ cols. grid_complete rows cols)) ≡ true
unfolding grid_complete pane_layout_grid
all_grids = refl

not_refused :
    (rows cols n : ℕ)
    → 0 < rows
    → 0 < cols
    → n ≤ 16
    → (rows == 0 || (cols == 0 || ltb 16 n)) ≡ false
not_refused rows cols n some_rows some_cols small = ground arith

in_range :
    (rows cols : ℕ)
    → 0 < rows
    → 0 < cols
    → rows * cols ≤ 16
    → grid_complete rows cols ≡ true
    → is_complete (pane_layout_grid rows cols) (rows * cols) ≡ true
unfolding grid_complete
in_range rows cols some_rows some_cols small h =
    let accepted = not_refused rows cols (rows * cols) some_rows some_cols small in
    subst (λ b. (if b then true else is_complete (pane_layout_grid rows cols) (rows * cols)) ≡ true)
      accepted h

-- A grid of at most sixteen panes is set up: it holds the panes from 1 to the number of its cells, each
-- once and reached from the root; the first one is active, and the next id is the one behind the last.
pub pane_layout_grid-Holds :
    (rows cols : ℕ)
    → 0 < rows
    → 0 < cols
    → rows * cols ≤ 16
    → (panes : Layout) × (pane_layout_grid rows cols ≡ some panes) × Holds (rows * cols) panes
pane_layout_grid-Holds rows cols some_rows some_cols small =
    let in_rows : rows < 17 = omega (arith, le-mul_of_pos_right rows some_cols) in
    let in_cols : cols < 17 =
      omega (arith, mul_comm cols rows, le-mul_of_pos_right cols some_rows) in
    let row = below_sound 17 rows (λ r. below 17 (λ c. grid_complete r c)) all_grids in_rows in
    is_complete-Holds (pane_layout_grid rows cols) (rows * cols) (
      in_range rows cols some_rows some_cols small
        (below_sound 17 cols (λ c. grid_complete rows c) row in_cols))

-- The loop for the columns ends with the least number whose square is enough.
grow_cols-least :
    (fuel pane_count cols : ℕ)
    → 0 < cols
    → pane_count ≤ cols + fuel
    → let found = grow_cols fuel pane_count cols in
      (pane_count ≤ found * found)
      × (cols ≤ found)
      × ((found ≡ cols) ⊎ ((found - 1) * (found - 1) < pane_count))
unfolding grow_cols
grow_cols-least zero pane_count cols pos h =
    (omega (arith, h, le-mul_of_pos_right cols pos), omega arith, inl refl)
grow_cols-least (suc fuel) pane_count cols pos h =
    elim (Bool-cases (ltb (cols * cols) pane_count)) [
      | inl short ↦
          let (enough, more, least) =
            grow_cols-least fuel pane_count (cols + 1) (omega arith) (omega arith) in
          rw short (
            enough,
            omega arith,
            inr (elim least [
              | inr found ↦ found
              | inl same ↦
                  subst (λ k. (k - 1) * (k - 1) < pane_count) (sym same)
                    (subst (λ k. k * k < pane_count) (omega arith)
                      (ltb→lt (cols * cols) pane_count short))
            ]),
          )
      | inr enough ↦ rw enough (ltb→ge (cols * cols) pane_count enough, omega arith, inl refl)
    ]

round_up : (n c q r : ℕ) → 0 < n → r < c → q * c + r ≡ n + c - 1 → (n ≤ q * c) × ((q - 1) * c < n)
round_up n c zero r some_panes small e = absurd (omega (arith, e))
round_up n c (suc k) r some_panes small e =
    let before : suc k - 1 ≡ k = omega arith in
    let product : (suc k - 1) * c ≡ k * c = ap (λ j. j * c) before in
    (omega (arith, e), omega (arith, e, suc-mul k c, product))

-- A number of panes that is not 0 gets a grid with a cell for each, no row of which is empty, and the
-- columns of which are no more than a square needs.
pub desk_auto_grid-covers :
    (pane_count : ℕ)
    → 0 < pane_count
    → let (rows, cols) = desk_auto_grid pane_count in
      (pane_count ≤ rows * cols)
      × ((rows - 1) * cols < pane_count)
      × ((cols - 1) * (cols - 1) < pane_count)
unfolding desk_auto_grid
desk_auto_grid-covers pane_count some_panes = elim (Bool-cases (leb pane_count 1)) [
  | inl one ↦ rw one (leb→le pane_count 1 one, omega arith, omega arith)
  | inr more ↦ elim (Bool-cases (pane_count == 2)) [
    | inl two ↦ rw (more, two) (ground arith, ground arith, ground arith)
    | inr others ↦ elim (Bool-cases (leb pane_count 4)) [
      | inl few ↦ rw (more, others, few) (ground arith, ground arith, ground arith)
      | inr many ↦
          let cols = grow_cols pane_count pane_count 1 in
          let (enough, pos, least) =
            grow_cols-least pane_count pane_count 1 (omega arith) (omega arith) in
          let (covered, no_empty) =
            round_up pane_count cols ((pane_count + cols - 1) / cols)
              ((pane_count + cols - 1) % cols) some_panes (mod-lt (pane_count + cols - 1) pos)
              (div-add-mod' (pane_count + cols - 1) cols) in
          rw (more, others, many)
            (
              covered,
              no_empty,
              elim least [
                | inl same ↦ subst (λ (k : ℕ). (k - 1) * (k - 1) < pane_count) (sym same) some_panes
                | inr found ↦ found
              ],
            )
    ]
  ]
]
