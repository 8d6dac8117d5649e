-- ===== src/Terminal/Damage.antt =====
-- Which rows of the screen have changed since the desktop last drew them.
use cubicle.Base.{
  ℕ, ◌-◌, ◌||◌, true, Bool, zero, ◌==◌, if◌then◌else◌, suc, take, replicate, ◌+◌, set, not, ltb,
  false, List, length-set, ◌∙◌, ◌<◌, get_or, inr, inl, ◌≡◌, refl, ◌&&◌, ◌≤◌, leb, arith, length,
  Bool-cases, get_or-set_ne, get_or-set_self, subst, ◌⊎◌, ◌≢◌, sym, length-replicate,
}
use cubicle.Base.Result.{Result, ok, einval, err, err-ok_ne, ok_injective, enomem}

abbrev pub max_rows : ℕ
max_rows = 1000

-- The fields of the model that the callbacks on the screen set.
pub record Screen : Type 0 where
  pub rows : ℕ
  pub cols : ℕ
  pub cursor_visible : Bool
  pub dirty_rows : List Bool

-- A row of a `VTermRect`, which may lie above the screen.
pub data Row : Type 0 where
  above : Row
  at : ℕ → Row

unfoldable pub mark_rows : List Bool → ℕ → ℕ → List Bool
mark_rows dirty row zero = dirty
mark_rows dirty row (suc n) = mark_rows (set dirty row true) (row + 1) n

abbrev pub start_row : Row → ℕ
start_row above = 0
start_row (at row) = row

-- `rect.start_row` and `rect.end_row`.
unfoldable pub track_damage : Row → Row → Screen → Screen
unfolding mark_rows
track_damage start end screen =
    let last = if ltb screen.rows (start_row end) then screen.rows else start_row end in
    record screen {
      dirty_rows = mark_rows screen.dirty_rows (start_row start) (last - start_row start);
    }

unfoldable pub track_cursor : Bool → Screen → Screen
track_cursor visible screen = record screen { cursor_visible = visible }

unfoldable pub track_resize : ℕ → ℕ → Screen → Screen
track_resize rows cols screen = record screen { rows = rows; cols = cols }

abbrev pub valid_size : ℕ → ℕ → Bool
valid_size rows cols = not (rows == 0 || (cols == 0 || (ltb max_rows rows || ltb max_rows cols)))

-- The screen that `cubicle_terminal_model_create` makes, given whether `calloc` and `vterm_new` succeed.
unfoldable pub model_create : Bool → Bool → ℕ → ℕ → Result Screen
unfolding mark_rows
model_create allocated has_term rows cols =
    if not (valid_size rows cols)
    then err einval
    else if not allocated || not has_term
    then err enomem
    else ok (record {
      rows = rows;
      cols = cols;
      cursor_visible = true;
      dirty_rows = mark_rows (replicate max_rows false) 0 rows;
    })

-- `cubicle_terminal_model_resize`; the size and the damage that libvterm
-- reports meanwhile go through `track_resize` and `track_damage`.
unfoldable pub model_resize : ℕ → ℕ → Screen → Result Screen
unfolding mark_rows
model_resize rows cols screen =
    if valid_size rows cols
    then ok (record screen {
      rows = rows;
      cols = cols;
      dirty_rows = mark_rows screen.dirty_rows 0 rows;
    })
    else err einval

-- `row_count` is the length of the array `rows`; the call fills its first `screen.rows` elements.
unfoldable pub get_dirty_rows : Screen → ℕ → Result (List Bool)
get_dirty_rows screen row_count =
    if ltb row_count screen.rows then err einval else ok (take screen.rows screen.dirty_rows)

unfoldable pub clear_dirty_rows : Screen → Screen
clear_dirty_rows screen = record screen { dirty_rows = replicate max_rows false }

-- The array has a flag for each row that a screen can have.
pub record IsScreen (s : Screen) : Type 0 where
  pub rows_fit : s.rows ≤ max_rows
  pub flags_fit : length s.dirty_rows ≡ max_rows

length-mark_rows : (n row : ℕ) (dirty : List Bool) → length (mark_rows dirty row n) ≡ length dirty
unfolding mark_rows
length-mark_rows zero row dirty = refl
length-mark_rows (suc n) row dirty =
    length-mark_rows n (row + 1) (set dirty row true) ∙ length-set dirty row true

-- A window of rows is its first row and the window behind it.
in_window :
    (row n i : ℕ) (here was : Bool)
    → ((row ≡ i) × (here ≡ true)) ⊎ ((row ≢ i) × (here ≡ was))
    → (if leb (row + 1) i && ltb i (row + 1 + n) then true else here)
      ≡ (if leb row i && ltb i (row + suc n) then true else was)
in_window row n i here was (inl (same, now)) = rw now (ground arith)
in_window row n i here was (inr (apart, now)) = rw now (ground arith)

-- The marked rows are set, the others are as they were.
mark_rows-get_or :
    (n row i : ℕ) (dirty : List Bool)
    → i < length dirty
    → get_or (mark_rows dirty row n) i false
      ≡ (if leb row i && ltb i (row + n) then true else get_or dirty i false)
unfolding mark_rows
mark_rows-get_or zero row i dirty h = ground arith
mark_rows-get_or (suc n) row i dirty h = elim (Bool-cases (row == i)) [
  | inl here ↦
      let same : row ≡ i = ground arith in
      let now : get_or (set dirty row true) i false ≡ true =
        subst (λ j. get_or (set dirty row true) j false ≡ true) same
          (get_or-set_self dirty row true false (omega (arith, same, h))) in
      let later =
        mark_rows-get_or n (row + 1) i (set dirty row true)
          (omega (arith, length-set dirty row true)) in
      later
      ∙ in_window row n i (get_or (set dirty row true) i false) (get_or dirty i false)
          (inl (same, now))
  | inr elsewhere ↦
      let apart : row ≢ i = ground arith in
      let now : get_or (set dirty row true) i false ≡ get_or dirty i false =
        get_or-set_ne dirty row i true false apart in
      let later =
        mark_rows-get_or n (row + 1) i (set dirty row true)
          (omega (arith, length-set dirty row true)) in
      later
      ∙ in_window row n i (get_or (set dirty row true) i false) (get_or dirty i false)
          (inr (apart, now))
]

shows : Screen → ℕ → Bool
shows screen row = get_or screen.dirty_rows row false

-- A damaged rectangle marks its rows that lie on the screen, and changes the mark of no other row.
pub track_damage-marks :
    (start end : Row) (screen : Screen) (row : ℕ)
    → IsScreen screen
    → row < max_rows
    → let damaged = leb (start_row start) row && (ltb row (start_row end) && ltb row screen.rows) in
      get_or (track_damage start end screen).dirty_rows row false
      ≡ (if damaged then true else get_or screen.dirty_rows row false)
unfolding track_damage
track_damage-marks start end screen row valid h =
    let last = if ltb screen.rows (start_row end) then screen.rows else start_row end in
    mark_rows-get_or (last - start_row start) (start_row start) row screen.dirty_rows
      (omega (arith, valid.flags_fit, h))
    ∙ clipped (start_row start) (start_row end) screen.rows row (get_or screen.dirty_rows row false)
  where
    clipped :
        (first end rows row : ℕ) (was : Bool)
        → (if leb first row && ltb row (first + ((if ltb rows end then rows else end) - first))
            then true
            else was)
          ≡ (if leb first row && (ltb row end && ltb row rows) then true else was)
    clipped first end rows row was = ground arith

valid_size-le : (rows cols : ℕ) → valid_size rows cols ≡ true → rows ≤ max_rows
valid_size-le rows cols h = ground arith

-- Marking from the first row on gives a screen of that many rows, all of them marked.
mark_rows-IsScreen :
    (rows cols : ℕ) (visible : Bool) (dirty : List Bool) (screen : Screen)
    → rows ≤ max_rows
    → length dirty ≡ max_rows
    → record {
      rows = rows;
      cols = cols;
      cursor_visible = visible;
      dirty_rows = mark_rows dirty 0 rows;
    }
      ≡ screen
    → IsScreen screen
      × (screen.rows ≡ rows)
      × ((row : ℕ) → row < rows → get_or screen.dirty_rows row false ≡ true)
mark_rows-IsScreen rows cols visible dirty screen fit flags e =
    subst
      (λ (s : Screen).
        IsScreen s
        × (s.rows ≡ rows)
        × ((row : ℕ) → row < rows → get_or s.dirty_rows row false ≡ true))
      e
      (
        record { rows_fit = fit; flags_fit = length-mark_rows rows 0 dirty ∙ flags },
        refl,
        λ row h.
            mark_rows-get_or rows 0 row dirty (omega (arith, flags, h, fit))
            ∙ inside row rows (get_or dirty row false) h,
      )
  where
    inside :
        (row rows : ℕ) (was : Bool)
        → row < rows
        → (if leb 0 row && ltb row (0 + rows) then true else was) ≡ true
    inside row rows was h = ground arith

-- A screen that is created has room for a mark of each of its rows, and starts with all of them set.
pub model_create-IsScreen :
    (rows cols : ℕ) (screen : Screen)
    → model_create true true rows cols ≡ ok screen
    → IsScreen screen
      × (screen.rows ≡ rows)
      × ((row : ℕ) → row < rows → get_or screen.dirty_rows row false ≡ true)
unfolding model_create
model_create-IsScreen rows cols screen h = elim (Bool-cases (valid_size rows cols)) [
  | inl valid ↦
      mark_rows-IsScreen rows cols true (replicate max_rows false) screen
        (valid_size-le rows cols valid) (length-replicate max_rows false)
        (ok_injective (sym (rw valid refl) ∙ h))
  | inr invalid ↦ absurd (err-ok_ne {e = einval} (sym (rw invalid refl) ∙ h))
]

-- A new size keeps a mark for each row that the screen can have, and marks the whole screen.
pub model_resize-IsScreen :
    (rows cols : ℕ) (screen resized : Screen)
    → IsScreen screen
    → model_resize rows cols screen ≡ ok resized
    → IsScreen resized
      × (resized.rows ≡ rows)
      × ((row : ℕ) → row < rows → get_or resized.dirty_rows row false ≡ true)
unfolding model_resize
model_resize-IsScreen rows cols screen resized old h = elim (Bool-cases (valid_size rows cols)) [
  | inl valid ↦
      mark_rows-IsScreen rows cols screen.cursor_visible screen.dirty_rows resized
        (valid_size-le rows cols valid) old.flags_fit (ok_injective (sym (rw valid refl) ∙ h))
  | inr invalid ↦ absurd (err-ok_ne {e = einval} (sym (rw invalid refl) ∙ h))
]
