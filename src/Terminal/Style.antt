-- ===== src/Terminal/Style.antt =====
-- The lengths of the style of a cell.
use cubicle.Base.{
  ℕ, Bytes, ◌≤◌, ◌<◌, arith, ◌+◌, false, Bool, length, leb, ◌-◌, length-append, codes, ◌≡◌, refl,
  ◌++◌, true, Bool-cases, [], ◌∷◌, inl, inr, ◌∙◌, ap,
}
use cubicle.Base.Result.{Result, ok, ◌>>=◌}
use cubicle.Terminal.Cell.{
  cell_sgr_from_vterm, Pen, Color, standard, indexed, rgb, sgr_size, print_after, append_attribute,
  append_color, decimal, append_sgr_color, append_sgr_number, is_plain, close_sgr,
}

-- The components of a colour are bytes.
abbrev pub IsColor : Color → Type 0
IsColor standard = Unit
IsColor (indexed index) = index < 256
IsColor (rgb red green blue) = (red < 256) × (green < 256) × (blue < 256)

-- A step that appends at most `most` bytes where they fit.
abbrev Appends : ℕ → (Bytes → Result Bytes) → Type 0
Appends most step =
    (written : Bytes)
    → length written + most < sgr_size
    → (next : Bytes) × (step written ≡ ok next) × (length next ≤ length written + most)

length-decimal : (n : ℕ) → n < 256 → length (decimal n) ≤ 3
unfolding decimal
length-decimal n h = ground arith

print_after-Appends :
    (most : ℕ) (text : Bytes)
    → length text ≤ most
    → Appends most (λ written. print_after sgr_size written text)
unfolding print_after
print_after-Appends most text h written room =
    (written ++ text, rw open_room refl, omega (arith, length-append written text))
  where
    open_room : leb (sgr_size - length written) (length text) ≡ false
    open_room = ground arith

append_attribute-Appends :
    (set : Bool) (value : ℕ) → value < 10 → Appends 2 (append_attribute set value)
unfolding append_attribute append_sgr_number decimal
append_attribute-Appends false value h = λ written room. (written, refl, omega arith)
append_attribute-Appends true value h =
    print_after-Appends 2 (codes ";" ++ decimal value) (omega (arith, one_digit value h))
  where
    one_digit : (value : ℕ) → value < 10 → length (decimal value) ≡ 1
    one_digit value h = ground arith

append_color-Appends :
    (prefix : Bytes) (color : Color)
    → length prefix ≡ 4
    → IsColor color
    → Appends 17 (append_color prefix color)
unfolding append_color append_sgr_color
append_color-Appends prefix standard e h = λ written room. (written, refl, omega arith)
append_color-Appends prefix (indexed index) e h =
    print_after-Appends 17 (prefix ++ (codes "5;" ++ decimal index))
      (omega (arith, length-append prefix (codes "5;" ++ decimal index), length-decimal index h))
append_color-Appends prefix (rgb red green blue) e (r, g, b) =
    let green_blue = decimal green ++ (codes ";" ++ decimal blue) in
    let components = decimal red ++ (codes ";" ++ green_blue) in
    print_after-Appends 17 (prefix ++ (codes "2;" ++ components)) (
      omega (
        arith,
        length-append prefix (codes "2;" ++ components),
        length-append (decimal red) (codes ";" ++ green_blue),
        length-append (decimal green) (codes ";" ++ decimal blue),
        length-decimal red r,
        length-decimal green g,
        length-decimal blue b,
      ))

-- What a step has written so far, at most `most` bytes.
abbrev Written : ℕ → Result Bytes → Type 0
Written most step = (written : Bytes) × (step ≡ ok written) × (length written ≤ most)

-- A step, and the steps behind it.
after :
    (m n : ℕ) (step : Bytes → Result Bytes) (rest : Bytes → Result Bytes)
    → Appends n step
    → m + n < sgr_size
    → ((next : Bytes) → length next ≤ m + n → Written 52 (rest next))
    → (written : Bytes) → length written ≤ m
    → Written 52 (step written >>= rest)
after m n step rest appends room rest_written written small =
    let (next, now, most) = appends written (omega arith) in
    let (last, reached, bound) = rest_written next (omega arith) in
    (last, ap (λ r. r >>= rest) now ∙ reached, bound)

close_sgr-Written : (written : Bytes) → length written ≤ 51 → Written 52 (close_sgr written)
unfolding close_sgr
close_sgr-Written written small =
    (written ++ b'm' ∷ [], rw room refl, omega (arith, length-append written (b'm' ∷ [])))
  where
    room : leb sgr_size (length written + 1) ≡ false
    room = ground arith

styled-Written :
    (pen : Pen)
    → IsColor pen.fg
    → IsColor pen.bg
    → Written 52 (
        append_attribute pen.bold 1 (27 ∷ codes "[0") >>= λ bold.
        append_attribute pen.italic 3 bold >>= λ italic.
        append_attribute pen.underline 4 italic >>= λ underline.
        append_attribute pen.blink 5 underline >>= λ blink.
        append_attribute pen.reverse 7 blink >>= λ reverse.
        append_attribute pen.conceal 8 reverse >>= λ conceal.
        append_attribute pen.strike 9 conceal >>= λ strike.
        append_color (codes ";38;") pen.fg strike >>= λ foreground.
        append_color (codes ";48;") pen.bg foreground >>= close_sgr)
styled-Written pen fg bg =
    after 3 2 (append_attribute pen.bold 1) _ (append_attribute-Appends pen.bold 1 (omega arith))
      (omega arith)
      (after 5 2 (append_attribute pen.italic 3) _
        (append_attribute-Appends pen.italic 3 (omega arith)) (omega arith)
        (after 7 2 (append_attribute pen.underline 4) _
          (append_attribute-Appends pen.underline 4 (omega arith)) (omega arith)
          (after 9 2 (append_attribute pen.blink 5) _
            (append_attribute-Appends pen.blink 5 (omega arith)) (omega arith)
            (after 11 2 (append_attribute pen.reverse 7) _
              (append_attribute-Appends pen.reverse 7 (omega arith)) (omega arith)
              (after 13 2 (append_attribute pen.conceal 8) _
                (append_attribute-Appends pen.conceal 8 (omega arith)) (omega arith)
                (after 15 2 (append_attribute pen.strike 9) _
                  (append_attribute-Appends pen.strike 9 (omega arith)) (omega arith)
                  (after 17 17 (append_color (codes ";38;") pen.fg) _
                    (append_color-Appends (codes ";38;") pen.fg refl fg) (omega arith)
                    (after 34 17 (append_color (codes ";48;") pen.bg) close_sgr
                      (append_color-Appends (codes ";48;") pen.bg refl bg) (omega arith)
                      close_sgr-Written))))))))
      (27 ∷ codes "[0") (omega arith)

-- Whatever the attributes and the colours of a cell are, its style is written, and takes at most 52 of
-- the 96 bytes that the cell has for it: no error can end a captured line there.
pub cell_sgr_from_vterm_fits :
    (pen : Pen)
    → IsColor pen.fg
    → IsColor pen.bg
    → (sgr : Bytes) × (cell_sgr_from_vterm pen ≡ ok sgr) × (length sgr ≤ 52)
unfolding cell_sgr_from_vterm
cell_sgr_from_vterm_fits pen fg bg = elim (Bool-cases (is_plain pen)) [
  | inl plain ↦ ([], rw plain refl, omega arith)
  | inr styled ↦
      let (sgr, written, small) = styled-Written pen fg bg in (sgr, rw styled written, small)
]
