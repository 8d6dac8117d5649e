-- ===== src/Terminal/Scrollback.antt =====
-- The two stores of lines that left the screen: the stack that libvterm pops from again, and the ring
-- of captured lines that the desktop takes.
use cubicle.Base.Result.{err, ok}
use cubicle.Base.{
  get_or, zero, ◌∷◌, suc, ltb, not, ◌||◌, ◌&&◌, ◌==◌, length, none, ◌%◌, ◌+◌, some, [], false,
  Option, replicate, set, ℕ, if◌then◌else◌, size_mod, true, Bool, size_add, List, ◌*◌,
}
use cubicle.Terminal.Cell.{VtermCell, Cell, cells_from_vterm}

-- `cubicle_terminal_scrollback_line_t`; `none` is a null pointer.
pub record ScrollbackLine : Type 0 where
  pub cols : ℕ
  pub cells : Option (List Cell)

abbrev pub cleared : ScrollbackLine
cleared = record { cols = 0; cells = none }

-- The fields of the model that belong to the ring: `captured_scrollback` is `slots`, and the other
-- four are named without that prefix.
pub record Captured : Type 0 where
  pub slots : List ScrollbackLine
  pub head : ℕ
  pub count : ℕ
  pub capacity : ℕ
  pub limit : ℕ

-- `free_captured_scrollback`, and the fields of a new model.
abbrev pub no_capture : Captured
no_capture = record { slots = []; head = 0; count = 0; capacity = 0; limit = 0 }

abbrev pub slot_at : Captured → ℕ → ℕ
slot_at c i = size_add c.head i % c.capacity

-- The part of `capture_scrollback_line` behind the copy.
unfoldable pub store_line : Captured → ScrollbackLine → Captured
store_line c line =
    if c.count == c.capacity
    then record c { slots = set c.slots c.head line; head = size_add c.head 1 % c.capacity }
    else record c { slots = set c.slots (slot_at c c.count) line; count = c.count + 1 }

-- `calloc` fails where the product passes `size_t`, and where the allocator refuses the block.
abbrev pub can_calloc : (ℕ → Bool) → ℕ → ℕ → Bool
can_calloc alloc n size = ltb (n * size) size_mod && alloc (n * size)

abbrev pub cell_size : ℕ
cell_size = 128

abbrev pub line_size : ℕ
line_size = 16

module _ (alloc : ℕ → Bool) where
  -- The result says whether the call returned 1. `sources` are the `cols` cells of the line.
  unfoldable pub capture_scrollback_line : Captured → List VtermCell → Captured × Bool
  capture_scrollback_line c sources =
      if c.limit == 0 || length sources == 0
      then (c, true)
      else if c.capacity == 0 || not (can_calloc alloc (length sources) cell_size)
      then (c, false)
      else elim (cells_from_vterm sources) [
        | err e ↦ (c, false)
        | ok cells ↦ (store_line c (record { cols = length sources; cells = some cells }), true)
      ]

  -- A limit of 0 stops the capture; another one starts an empty ring.
  unfoldable pub set_scrollback_capture_limit : Captured → ℕ → Captured × Bool
  set_scrollback_capture_limit c line_limit =
      if line_limit == 0
      then (no_capture, true)
      else if can_calloc alloc line_limit line_size
      then (
        record {
          slots = replicate line_limit cleared;
          head = 0;
          count = 0;
          capacity = line_limit;
          limit = line_limit;
        },
        true,
      )
      else (c, false)

  -- The loop that moves the lines out, from index `i` on.
  unfoldable pub move_lines : Captured → ℕ → ℕ → List ScrollbackLine × List ScrollbackLine
  move_lines c i zero = ([], c.slots)
  move_lines c i (suc n) =
      let (lines, slots) =
        move_lines (record c { slots = set c.slots (slot_at c i) cleared }) (i + 1) n in
      (get_or c.slots (slot_at c i) cleared ∷ lines, slots)

  -- `none` is -1; otherwise the model and the lines, oldest first.
  unfoldable pub take_scrollback : Captured → Option (Captured × List ScrollbackLine)
  unfolding move_lines
  take_scrollback c =
      if c.count == 0
      then some (c, [])
      else if can_calloc alloc c.count line_size
      then (let (lines, slots) = move_lines c 0 c.count in
          some (record c { slots = slots; head = 0; count = 0 }, lines))
      else none

-- The loop of `clear_captured_scrollback`.
unfoldable pub clear_slots : Captured → ℕ → ℕ → Captured
clear_slots c i zero = c
clear_slots c i (suc n) =
    clear_slots (record c { slots = set c.slots (slot_at c i) cleared }) (i + 1) n

unfoldable pub clear_captured_scrollback : Captured → Captured
unfolding clear_slots
clear_captured_scrollback c = record (clear_slots c 0 c.count) { head = 0; count = 0 }

-- The stack of libvterm's own lines, the last pushed first: each with its width.
pub record SavedLine : Type 0 where
  pub width : ℕ
  pub content : List VtermCell

pub record Saved : Type 0 where
  pub lines : List SavedLine
  pub room : ℕ

-- `vterm_cell_size` is the size that libvterm's header gives its cells.
module _ (alloc : ℕ → Bool) (vterm_cell_size : ℕ) where
  -- The array doubles when it is full, and starts with 64 lines.
  unfoldable pub save_scrollback_line : Saved → List VtermCell → Saved × Bool
  save_scrollback_line s content =
      let room =
        if length s.lines == s.room then (if s.room == 0 then 64 else s.room * 2) else s.room in
      if length content == 0 || not (alloc (length content * vterm_cell_size))
      then (s, false)
      else if (length s.lines == s.room) && not (alloc (room * line_size))
      then (s, false)
      else (
        record {
          lines = record { width = length content; content = content } ∷ s.lines;
          room = room;
        },
        true,
      )

  -- The two stores take a line together; the result says whether both did.
  unfoldable pub track_scrollback_push : Saved → Captured → List VtermCell → Saved × Captured × Bool
  unfolding save_scrollback_line
  track_scrollback_push s c content =
      let (saved, kept) = save_scrollback_line s content in
      let (captured, taken) = capture_scrollback_line alloc c content in
      (saved, captured, kept && taken)

-- Lines of another width are dropped on the way.
unfoldable pub pop_line : ℕ → List SavedLine → List SavedLine × Option (List VtermCell)
pop_line cols [] = ([], none)
pop_line cols (line ∷ lines) =
    let rest = pop_line cols lines in
    if line.width == cols then (lines, some line.content) else rest

unfoldable pub restore_scrollback_line : Saved → ℕ → Saved × Option (List VtermCell)
unfolding pop_line
restore_scrollback_line s cols =
    if cols == 0
    then (s, none)
    else (let (lines, found) = pop_line cols s.lines in (record s { lines = lines }, found))
