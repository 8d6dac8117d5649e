-- ===== src/Control/Lines.antt =====
-- What the loop over the bytes does with a line.
use cubicle.Control.Client.{Client}
use cubicle.Control.Framing.{resume, with_bytes, scan-cons, resume-keep}
use cubicle.Control.Read.{
  byte_step, line_byte, line_complete, scan, keep, request_too_long, with_byte,
}
use cubicle.Base.{
  ltb→lt, ◌≤◌, ◌<◌, ◌∙◌, ltb, if◌then◌else◌, ◌-◌, length-append, lt→ltb, ap, ◌≢◌, [], suc, ◌++◌,
  append-nil, inr, arith, true, ◌≡◌, Bool-cases, append_assoc, ◌+◌, ltb→ge, take, ℕ, ◌∷◌, length,
  false, inl, Bytes, All,
}

-- A byte of a line: any but 0 and the end of line, while fewer than 255 are stored.
byte_step-line :
    (c : Client) (x : ℕ)
    → c.framed_request ≡ false
    → x ≢ 0
    → x ≢ 10
    → byte_step c x
      ≡ (if ltb (length c.request) 255 then keep (with_byte c x) else request_too_long c)
unfolding byte_step line_byte
byte_step-line c x unframed not_zero not_end = ground arith

byte_step-end : (c : Client) → c.framed_request ≡ false → byte_step c 10 ≡ line_complete c
unfolding byte_step line_byte
byte_step-end c unframed = ground arith

abbrev pub IsLineByte : ℕ → Type 0
IsLineByte x = (x ≢ 0) × (x ≢ 10)

pub scan-line :
    (text rest : Bytes) (c : Client)
    → c.framed_request ≡ false
    → All IsLineByte text
    → length c.request + length text ≤ 255
    → scan c (text ++ 10 ∷ rest) ≡ line_complete (with_bytes c text)
unfolding resume
scan-line [] rest c unframed plain short = rw (scan-cons, byte_step-end c unframed, append-nil)
scan-line (x ∷ text) rest c unframed plain short =
    let room : ltb (length c.request) 255 ≡ true = lt→ltb _ _ (omega arith) in
    let grown : length (c.request ++ x ∷ []) ≡ length c.request + 1 =
      length-append c.request (x ∷ []) in
    rw (scan-cons, byte_step-line c x unframed plain.0.0 plain.0.1, room, resume-keep)
      (scan-line text rest (with_byte c x) unframed plain.1 (omega arith)
        ∙ ap (λ r. line_complete (record c { request = r })) (append_assoc c.request (x ∷ []) text))

pub scan-long_line :
    (text : Bytes) (c : Client)
    → c.framed_request ≡ false
    → All IsLineByte text
    → length c.request ≤ 255
    → 255 < length c.request + length text
    → scan c text ≡ request_too_long (with_bytes c (take (255 - length c.request) text))
unfolding resume
scan-long_line [] c unframed plain short long = grind arith
scan-long_line (x ∷ text) c unframed plain short long =
    let grown : length (c.request ++ x ∷ []) ≡ length c.request + 1 =
      length-append c.request (x ∷ []) in
    elim (Bool-cases (ltb (length c.request) 255)) [
      | inl room ↦
          let more : 255 - length c.request ≡ suc (255 - length (c.request ++ x ∷ [])) =
            ground (arith, grown, ltb→lt (length c.request) 255 room) in
          rw (scan-cons, byte_step-line c x unframed plain.0.0 plain.0.1, room, resume-keep, more)
            (scan-long_line text (with_byte c x) unframed plain.1
                (ground (arith, grown, ltb→lt (length c.request) 255 room)) (omega arith)
              ∙ ap (λ r. request_too_long (record c { request = r }))
                  (append_assoc c.request (x ∷ [])
                    (take (255 - length (c.request ++ x ∷ [])) text)))
      | inr full ↦
          let none_left : 255 - length c.request ≡ 0 =
            ground (arith, ltb→ge (length c.request) 255 full) in
          rw (
            scan-cons,
            byte_step-line c x unframed plain.0.0 plain.0.1,
            full,
            none_left,
            append-nil,
          )
    ]
