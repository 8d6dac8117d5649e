-- ===== src/Terminal/Modes.antt =====
-- `track_application_cursor_mode` of src/common/terminal_model.c: the mode of the cursor keys, read off the
-- output, whose last bytes are kept for a sequence that is not whole yet.
use cubicle.Base.{
  ℕ, Bytes, Option, none, some, true, false, Bool, ◌*◌, ◌∷◌, ◌++◌, ◌==◌, length, [], ◌%◌, ◌^◌, ◌||◌,
  leb, if◌then◌else◌, drop, ◌&&◌, ◌-◌, ◌+◌,
}

abbrev pub tail_size : ℕ
tail_size = 16

abbrev pub scanned_max : ℕ
scanned_max = 4096

pub record ModeTracker : Type 0 where
  pub application_cursor : Bool
  pub input_tail : Bytes

abbrev pub is_mode_one : Bool → ℕ → Bool
is_mode_one have_digits value = have_digits && value == 1

-- What a sequence sets from here on: `none` where it is not whole, ends otherwise, or is not about mode 1.
-- `value` is an `unsigned int`.
unfoldable pub scan_params : Bytes → Bool → ℕ → Bool → Option Bool
scan_params [] has_mode_one value have_digits = none
scan_params (ch ∷ rest) has_mode_one value have_digits =
    let more_digits = scan_params rest has_mode_one ((value * 10 + (ch - 48)) % 2 ^ 32) true in
    let next_param = scan_params rest (has_mode_one || is_mode_one have_digits value) 0 false in
    let further = scan_params rest has_mode_one value have_digits in
    if leb b'0' ch && leb ch b'9'
    then more_digits
    else if ch == b';'
    then next_param
    else if ch == b'h' || ch == b'l'
    then (if has_mode_one || is_mode_one have_digits value then some (ch == b'h') else none)
    else if leb 0x40 ch && leb ch 0x7e
    then none
    else further

-- What a sequence sets that begins at the front; one of less than five bytes is not looked at.
unfoldable pub mode_at : Bytes → Option Bool
unfolding scan_params
mode_at (e ∷ b ∷ q ∷ c ∷ d ∷ rest) =
    if e == 27 && (b == b'[' && q == b'?') then scan_params (c ∷ d ∷ rest) false 0 false else none
mode_at _ = none

-- The loop over the bytes: the last sequence counts.
unfoldable pub scan_modes : Bytes → Bool → Bool
unfolding mode_at
scan_modes [] application_cursor = application_cursor
scan_modes (c ∷ rest) application_cursor =
    scan_modes rest (elim (mode_at (c ∷ rest)) [ none ↦ application_cursor | some mode ↦ mode ])

-- The last bytes of a text, at most so many.
abbrev pub last_bytes : ℕ → Bytes → Bytes
last_bytes n text = drop (length text - n) text

unfoldable pub track_application_cursor_mode : ModeTracker → Bytes → ModeTracker
unfolding scan_modes
track_application_cursor_mode tracker bytes =
    let buffer = tracker.input_tail ++ last_bytes scanned_max bytes in
    record {
      application_cursor = scan_modes buffer tracker.application_cursor;
      input_tail = last_bytes tail_size buffer;
    }
