-- ===== src/Json/Promise.antt =====
-- What the text writers promise their callers, from end to end.
use cubicle.Json.Valid.{repair-IsUtf8, repair-id}
use cubicle.Json.RoundTrip.{read-escape_text}
use cubicle.Json.Room.{escape_text, json_escape-exact}
use cubicle.Json.Utf8.{repair, IsUtf8, read-text_n}
use cubicle.Json.Chunk.{quote}
use cubicle.Json.Reader.{read_string}
use cubicle.Json.Content.{Appends, append_string-Appends, text_n, append_string_n-Appends}
use cubicle.Json.Builder.{Builder, append_string_n, empty, append_string}
use cubicle.Json.Growth.{IsBuilder}
use cubicle.Json.Buffer.{json_escape}
use cubicle.Base.Result.{err, Result, ok}
use cubicle.Base.{
  length, ltb→lt, some, refl, ◌∙◌, inr, ℕ, ◌≡◌, ap, Bytes, ◌++◌, ◌<◌, ltb, Bool-cases, ◌∷◌, All,
  subst, Bool, ◌^◌, sym, arith, [], inl,
}

-- An escape that fits reads back as the text, up to a closing quote, and leaves room in the buffer
-- for its terminator; the buffer has at least one byte and fewer than 2 ^ 63.
pub json_escape_reads :
    (n : ℕ) (v e rest : Bytes)
    → 0 < n
    → n < 2 ^ 63
    → All (λ c. c < 256) v
    → json_escape (some n) (some v) ≡ ok e
    → (length e < n) × (read_string (e ++ quote ∷ rest) ≡ some (v, rest))
json_escape_reads n v e rest pos small bytes h =
    elim (Bool-cases (ltb (length (escape_text v)) n)) [
      | inl fits ↦
          let same : escape_text v ≡ e = cc (h, rw fits at (json_escape-exact n v pos small)) in
          (
            subst (λ x. length x < n) same (ltb→lt _ n fits),
            subst (λ x. read_string (x ++ quote ∷ rest) ≡ some (v, rest)) same
                (read-escape_text v rest bytes),
          )
      | inr over ↦ cc (h, rw over at (json_escape-exact n v pos small))
    ]

appended :
    (alloc : ℕ → Bool) (b r : Builder) (out : Bytes) (m : Result Builder)
    → m ≡ ok r
    → Appends alloc b out m
    → (r.text ≡ b.text ++ out) × IsBuilder r
appended alloc b r out (ok x) e h =
    let same : x ≡ r = cc in (ap (λ y. y.text) (sym same) ∙ h.0, subst IsBuilder same h.1)
appended alloc b r out (err x) e h = cc

-- A successful `append_string` on a well-formed builder appends a quote and a body that a JSON
-- reader takes, to its very end, for the text.
pub append_string_reads :
    (alloc : ℕ → Bool) (b r : Builder) (v : Bytes)
    → IsBuilder b
    → All (λ c. c < 256) v
    → append_string alloc b (some v) ≡ ok r
    → (body : Bytes) × (r.text ≡ b.text ++ quote ∷ body)
      × (read_string body ≡ some (v, []))
      × IsBuilder r
append_string_reads alloc b r v h bytes e =
    let (grown, valid) = appended alloc b r _ _ e (append_string-Appends alloc b v h) in
    (escape_text v ++ quote ∷ [], grown, read-escape_text v [] bytes, valid)

-- A successful `append_string_n` on a well-formed builder appends a quote and a body that a JSON
-- reader takes, to its very end, for the repaired text. That is well-formed UTF-8 whatever the bytes
-- are, and it is the text itself where that is well-formed.
pub append_string_n_reads :
    (alloc : ℕ → Bool) (b r : Builder) (v : Bytes)
    → IsBuilder b
    → All (λ c. c < 256) v
    → append_string_n alloc b (some v) ≡ ok r
    → (body : Bytes) × (r.text ≡ b.text ++ quote ∷ body)
      × (read_string body ≡ some (repair 0 v, []))
      × IsUtf8 (repair 0 v)
      × (IsUtf8 v → repair 0 v ≡ v)
append_string_n_reads alloc b r v h bytes e =
    let (grown, valid) = appended alloc b r _ _ e (append_string_n-Appends alloc b v h) in
    (text_n 0 v ++ quote ∷ [], grown, read-text_n v [] bytes, repair-IsUtf8 v 0 bytes, repair-id)

empty-IsBuilder : IsBuilder empty
empty-IsBuilder = record { room = inr (refl, refl); bounded = omega arith }
