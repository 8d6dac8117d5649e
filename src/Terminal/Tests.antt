-- ===== src/Terminal/Tests.antt =====
-- Witnesses of the theorems on the terminal model, on concrete cells, lines and screens.
use cubicle.Terminal.Modes.{ModeTracker, track_application_cursor_mode}
use cubicle.Terminal.Text.{cell_text_from_vterm-IsUtf8}
use cubicle.Terminal.History.{last}
use cubicle.Terminal.Style.{cell_sgr_from_vterm_fits}
use cubicle.Json.Utf8.{IsUtf8}
use cubicle.Terminal.Taking.{
  Takes, capture_each, take_scrollback-Takes, copied_lines, capture_each-last,
}
use cubicle.Terminal.Response.{capture_response, drain, answer_max, capture_response_bounds}
use cubicle.Terminal.Ring.{captured_lines, IsCaptured}
use cubicle.Base.Result.{value_or, ok}
use cubicle.Base.{
  ℕ, Bytes, ◌≤◌, ◌<◌, refl, ◌++◌, codes, get_or, ◌∷◌, length, length-replicate, take, replicate,
  Bool, arith, List, [], ◌≡◌, false, true, inl,
}
use cubicle.Terminal.Cell.{
  indexed, rgb, Pen, VtermCell, cell_text_from_vterm, cell_sgr_from_vterm, text_size, append_utf8,
}
use cubicle.Terminal.Damage.{
  above, at, IsScreen, Screen, track_damage, model_resize, max_rows, track_damage-marks,
}
use cubicle.Terminal.Scrollback.{Captured, cleared, take_scrollback}

abbrev given : ℕ → Bool
given n = true

abbrev pen : Pen
pen = record {
  bold = true;
  italic = false;
  underline = true;
  blink = false;
  reverse = false;
  conceal = false;
  strike = true;
  fg = rgb 255 128 7;
  bg = indexed 42;
}

cell_sgr_from_vterm_fits_example :
    (sgr : Bytes) × (cell_sgr_from_vterm pen ≡ ok sgr) × (length sgr ≤ 52)
cell_sgr_from_vterm_fits_example =
    cell_sgr_from_vterm_fits pen (omega arith, omega arith, omega arith) (omega arith)

cell_sgr_from_vterm-sample :
    cell_sgr_from_vterm pen ≡ ok (27 ∷ codes "[0;1;4;9;38;2;255;128;7;48;5;42m")
unfolding cell_sgr_from_vterm
cell_sgr_from_vterm-sample = refl

-- A letter with an accent behind it, of U+0301.
abbrev accented : List ℕ
accented = b'e' ∷ 0x301 ∷ 0 ∷ 0 ∷ 0 ∷ 0 ∷ []

cell_text_from_vterm-IsUtf8_example :
    IsUtf8 (cell_text_from_vterm accented)
    × (0 < length (cell_text_from_vterm accented))
    × (length (cell_text_from_vterm accented) < text_size)
cell_text_from_vterm-IsUtf8_example = cell_text_from_vterm-IsUtf8 accented (
  inl (omega arith),
  (
    inl (omega arith),
    (inl (omega arith), (inl (omega arith), (inl (omega arith), (inl (omega arith), tt)))),
  ),
)

cell_text_from_vterm-sample : cell_text_from_vterm accented ≡ b'e' ∷ 0xcc ∷ 0x81 ∷ []
unfolding cell_text_from_vterm append_utf8
cell_text_from_vterm-sample = refl

-- A ring of two lines, and three lines pushed at it.
abbrev ring : Captured
ring = record { slots = cleared ∷ cleared ∷ []; head = 1; count = 0; capacity = 2; limit = 2 }

ring-IsCaptured : IsCaptured ring
ring-IsCaptured = record {
  slots_fit = refl;
  count_fits = omega arith;
  head_fits = λ h. omega arith;
  size_fits = omega arith;
  limit_set = refl;
}

abbrev vterm_line : ℕ → List VtermCell
vterm_line c = record { chars = c ∷ []; pen = pen } ∷ []

abbrev pushed : List (List VtermCell)
pushed = vterm_line b'a' ∷ vterm_line b'b' ∷ vterm_line b'c' ∷ []

capture_each-last_example :
    captured_lines (capture_each given ring pushed)
    ≡ last 2 (captured_lines ring ++ copied_lines given pushed)
capture_each-last_example = capture_each-last given ring pushed ring-IsCaptured (omega arith)

take_scrollback-Takes_example : Takes given ring (take_scrollback given ring)
take_scrollback-Takes_example = take_scrollback-Takes given ring ring-IsCaptured

capture_response_bounds_example :
    (capture_response (codes "ab") (codes "cd") ≡ take answer_max (codes "ab" ++ codes "cd"))
    × (length (capture_response (codes "ab") (codes "cd")) ≤ answer_max)
capture_response_bounds_example = capture_response_bounds (codes "ab") (codes "cd") (omega arith)

drain-sample : drain (codes "abcde") (2 ∷ 0 ∷ 2 ∷ []) ≡ (codes "e", codes "abcd")
unfolding drain
drain-sample = refl

abbrev screen : Screen
screen = record {
  rows = 24;
  cols = 80;
  cursor_visible = true;
  dirty_rows = replicate max_rows false;
}

screen-IsScreen : IsScreen screen
screen-IsScreen = record { rows_fit = omega arith; flags_fit = length-replicate max_rows false }

track_damage-marks_example : get_or (track_damage above (at 3) screen).dirty_rows 2 false ≡ true
track_damage-marks_example = track_damage-marks above (at 3) screen 2 screen-IsScreen (omega arith)

abbrev resized : Screen
unfolding model_resize
resized = value_or screen (model_resize 30 90 screen)

model_resize-sample : model_resize 30 90 screen ≡ ok resized
unfolding model_resize
model_resize-sample = refl

abbrev untracked : ModeTracker
untracked = record { application_cursor = false; input_tail = [] }

-- A sequence in two pieces, and one that sets mode 1 among others.
split_sequence :
    (track_application_cursor_mode
      (track_application_cursor_mode untracked (27 ∷ codes "[?25;"))
      (codes "1h")).application_cursor
    ≡ true
unfolding track_application_cursor_mode
split_sequence = refl

other_mode :
    (track_application_cursor_mode untracked (27 ∷ codes "[?12h")).application_cursor ≡ false
unfolding track_application_cursor_mode
other_mode = refl
