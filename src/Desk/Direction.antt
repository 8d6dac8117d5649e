-- ===== src/Desk/Direction.antt =====
-- Moving to, and swapping with, the pane that lies in a direction.
use cubicle.Desk.Tree.{pane_find_leaf_node}
use cubicle.Base.{
  ℕ, Option, none, some, if◌then◌else◌, leb, true, set, ◌&&◌, ◌-◌, ◌==◌, ◌||◌, Bool, List, ◌*◌, not,
  ◌+◌, ltb, false, zero, suc,
}
use cubicle.Desk.Nodes.{Node, Layout, node_at}
use cubicle.Desk.Edit.{Direction, to_left, to_right, to_above, to_below, is_sideways}
use cubicle.Desk.Rects.{Rect, rect_overlap_1d, pane_layout_rect_for_pane}

-- Twice the middle of a rectangle.
abbrev pub rect_center_row : Rect → ℕ
rect_center_row rect = rect.row * 2 + rect.rows

abbrev pub rect_center_col : Rect → ℕ
rect_center_col rect = rect.col * 2 + rect.cols

-- `abs(a - b)`.
abbrev pub distance : ℕ → ℕ → ℕ
distance a b = (a - b) + (b - a)

abbrev pub is_beyond : Rect → Rect → Direction → Bool
is_beyond active candidate to_left = ltb candidate.col active.col
is_beyond active candidate to_right = ltb active.col candidate.col
is_beyond active candidate to_above = ltb candidate.row active.row
is_beyond active candidate to_below = ltb active.row candidate.row

-- A gap below 0 counts as 0, where the subtraction stops.
abbrev pub gap_between : Rect → Rect → Direction → ℕ
gap_between active candidate to_left = active.col - (candidate.col + candidate.cols)
gap_between active candidate to_right = candidate.col - (active.col + active.cols)
gap_between active candidate to_above = active.row - (candidate.row + candidate.rows)
gap_between active candidate to_below = candidate.row - (active.row + active.rows)

abbrev pub overlap_between : Rect → Rect → Direction → ℕ
unfolding rect_overlap_1d
overlap_between active candidate direction =
    if is_sideways direction
    then rect_overlap_1d active.row active.rows candidate.row candidate.rows
    else rect_overlap_1d active.col active.cols candidate.col candidate.cols

abbrev pub perpendicular_between : Rect → Rect → Direction → ℕ
perpendicular_between active candidate direction =
    if is_sideways direction
    then distance (rect_center_row active) (rect_center_row candidate)
    else distance (rect_center_col active) (rect_center_col candidate)

-- The gap and the distance sideways of a candidate.
unfoldable pub pane_direction_candidate_score : Rect → Rect → Direction → Bool → Option (ℕ × ℕ)
unfolding overlap_between
pane_direction_candidate_score active candidate direction require_overlap =
    if not (is_beyond active candidate direction)
      || (require_overlap && overlap_between active candidate direction == 0)
    then none
    else some
        (gap_between active candidate direction, perpendicular_between active candidate direction)

-- The best candidate so far: its id, its gap and its distance sideways; the id 0 is none.
pub record Best : Type 0 where
  pub best : ℕ
  pub best_gap : ℕ
  pub best_perpendicular : ℕ

abbrev pub no_best : Best
no_best = record { best = 0; best_gap = 0; best_perpendicular = 0 }

abbrev pub is_better : ℕ → ℕ → ℕ → Best → Bool
is_better id gap perpendicular b =
    b.best == 0
    || (ltb gap b.best_gap
        || ((gap == b.best_gap && ltb perpendicular b.best_perpendicular)
            || (gap == b.best_gap && (perpendicular == b.best_perpendicular && ltb id b.best))))

-- One candidate of the loop.
unfoldable pub candidate_step : (ℕ → Option Rect) → Rect → Direction → Bool → ℕ → ℕ → Best → Best
unfolding pane_direction_candidate_score
candidate_step rect_for active direction require_overlap active_id id b =
    if id == active_id then b else elim (rect_for id) [
      | none ↦ b
      | some candidate ↦
          elim (pane_direction_candidate_score active candidate direction require_overlap) [
            | none ↦ b
            | some (gap, perpendicular) ↦
                if is_better id gap perpendicular b
                then record { best = id; best_gap = gap; best_perpendicular = perpendicular }
                else b
          ]
    ]

-- The loop over the ids from `id` on.
unfoldable pub candidates : (ℕ → Option Rect) → Rect → Direction → Bool → ℕ → ℕ → ℕ → Best → Best
unfolding candidate_step
candidates rect_for active direction require_overlap active_id zero id b = b
candidates rect_for active direction require_overlap active_id (suc n) id b =
    candidates rect_for active direction require_overlap active_id n (id + 1)
      (candidate_step rect_for active direction require_overlap active_id id b)

-- The two passes; the second one takes candidates that do not overlap.
unfoldable pub two_passes : (ℕ → Option Rect) → Rect → Direction → ℕ → ℕ → ℕ
unfolding candidates
two_passes rect_for active direction active_id pane_count =
    let first = candidates rect_for active direction true active_id pane_count 1 no_best in
    let second = candidates rect_for active direction false active_id pane_count 1 first in
    if not (first.best == 0) then first.best else second.best

-- Whether the pane that the user came from is to be preferred.
unfoldable pub takes_preferred : (ℕ → Option Rect) → Rect → Direction → ℕ → ℕ → ℕ → Bool
unfolding pane_direction_candidate_score
takes_preferred rect_for active direction active_id pane_count preferred =
    if not (preferred == 0) && (not (preferred == active_id) && leb preferred pane_count)
    then elim (rect_for preferred) [
      | none ↦ false
      | some rect ↦ elim (pane_direction_candidate_score active rect direction true) [
        | none ↦ false
        | some score ↦ true
      ]
    ]
    else false

-- The pane that is selected from among the rectangles of the ids 1 to `pane_count`.
unfoldable pub select_id : (ℕ → Option Rect) → Direction → ℕ → ℕ → ℕ → Option ℕ
unfolding two_passes takes_preferred
select_id rect_for direction active_id pane_count preferred =
    if active_id == 0 || ltb pane_count active_id then none else elim (rect_for active_id) [
      | none ↦ none
      | some active ↦
          let best = two_passes rect_for active direction active_id pane_count in
          if takes_preferred rect_for active direction active_id pane_count preferred
          then some preferred
          else if best == 0
          then none
          else some best
    ]

-- `rows` and `cols` are the terminal's.
unfoldable pub pane_layout_select_direction : Layout → ℕ → ℕ → ℕ → Direction → ℕ → Layout × Bool
unfolding select_id pane_layout_rect_for_pane
pane_layout_select_direction panes rows cols pane_count direction preferred =
    elim (select_id (pane_layout_rect_for_pane panes rows cols) direction panes.active_pane_id
      pane_count preferred) [
        | none ↦ (panes, false)
        | some id ↦ (record panes { active_pane_id = id }, true)
      ]

-- The ids and the labels of two panes are exchanged, and the active pane keeps its id.
unfoldable pub swap_panes : List Node → ℕ → ℕ → List Node
swap_panes nodes i j =
    let active = node_at nodes i in
    let target = node_at nodes j in
    let moved = set nodes i (record active { pane_id = target.pane_id; label = target.label }) in
    set moved j (record (node_at moved j) { pane_id = active.pane_id; label = active.label })

unfoldable pub pane_layout_swap_direction : Layout → ℕ → ℕ → ℕ → Direction → Layout × Bool
unfolding pane_layout_select_direction pane_find_leaf_node swap_panes
pane_layout_swap_direction panes rows cols pane_count direction =
    let (selected, moved) = pane_layout_select_direction panes rows cols pane_count direction 0 in
    if moved
    then elim (pane_find_leaf_node panes.nodes panes.root panes.active_pane_id) [
      | none ↦ (panes, false)
      | some i ↦ elim (pane_find_leaf_node panes.nodes panes.root selected.active_pane_id) [
        | none ↦ (panes, false)
        | some j ↦ (record panes { nodes = swap_panes panes.nodes i j }, true)
      ]
    ]
    else (panes, false)
