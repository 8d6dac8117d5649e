-- ===== src/Json/Tests.antt =====
-- The text writers at concrete inputs.
use cubicle.Json.Room.{json_escape-exact}
use cubicle.Json.Promise.{append_string_reads, json_escape_reads, append_string_n_reads}
use cubicle.Json.Utf8.{repair, IsUtf8}
use cubicle.Json.Prefix.{safe_utf8_prefix_length, advance, advance_three}
use cubicle.Json.Growth.{IsBuilder, Reserved, reserve-Reserved}
use cubicle.Json.Builder.{append_string_n, Builder, append_string, empty, reserve}
use cubicle.Json.Reader.{read_string}
use cubicle.Json.Chunk.{
  escape_chunk, quote, short_escape, classify, sequence_length, one_follows, two_follow,
  three_follow, unicode_escape,
}
use cubicle.Json.Buffer.{json_escape}
use cubicle.Base.Result.{err, einval, enospc, enomem, ok}
use cubicle.Json.HeldBack.{safe_utf8_prefix_length-cut, two_of_three}
use cubicle.Json.Utf8.{two, done}
use cubicle.Base.{
  true, Bytes, ℕ, refl, Bool, none, arith, take, some, ◌∷◌, false, inr, ◌≡◌, ◌++◌, ◌+◌, drop, [],
  inl,
}

abbrev given : ℕ → Bool
given size = true

-- "a", a quote, a newline, a control byte.
abbrev sample : Bytes
sample = b'a' ∷ b'"' ∷ 10 ∷ 1 ∷ []

-- A euro sign, a stray continuation byte, and the first two bytes of a second euro sign.
abbrev torn : Bytes
torn = 0xe2 ∷ 0x82 ∷ 0xac ∷ 0x80 ∷ 0xe2 ∷ 0x82 ∷ []

escape_sample :
    json_escape (some 64) (some sample)
    ≡ ok (b'a' ∷ b'\\' ∷ b'"' ∷ b'\\' ∷ b'n' ∷ b'\\' ∷ b'u' ∷ b'0' ∷ b'0' ∷ b'0' ∷ b'1' ∷ [])
unfolding json_escape escape_chunk short_escape unicode_escape
escape_sample = refl

escape_sample_small : json_escape (some 11) (some sample) ≡ err enospc
unfolding json_escape escape_chunk short_escape unicode_escape
escape_sample_small = refl

escape_null : json_escape (some 64) none ≡ err einval
unfolding json_escape
escape_null = refl

safe_torn : safe_utf8_prefix_length (some torn) ≡ 4
unfolding safe_utf8_prefix_length advance advance_three one_follows two_follow
safe_torn = refl

-- What a builder holds after a string in an empty one.
abbrev written : Bytes → ℕ → Builder
written body capacity = record { text = quote ∷ (body ++ quote ∷ []); capacity = capacity }

abbrev escaped_stray : Bytes
escaped_stray = b'\\' ∷ b'u' ∷ b'0' ∷ b'0' ∷ b'8' ∷ b'0' ∷ []

abbrev whole : Builder
whole =
    written
      (0xe2
        ∷ 0x82
        ∷ 0xac
        ∷ (escaped_stray
            ++ (b'\\' ∷ b'u' ∷ b'0' ∷ b'0' ∷ b'e' ∷ b'2' ∷ b'\\' ∷ b'u' ∷ b'0' ∷ b'0' ∷ b'8' ∷ b'2'
                ∷ [])))
      256

append_torn : append_string_n given empty (some torn) ≡ ok whole
unfolding append_string_n classify short_escape unicode_escape sequence_length one_follows
    two_follow three_follow
append_torn = refl

append_torn_first :
    append_string_n given empty (some (take (safe_utf8_prefix_length (some torn)) torn))
    ≡ ok (written (0xe2 ∷ 0x82 ∷ 0xac ∷ escaped_stray) 256)
unfolding append_string_n classify short_escape unicode_escape sequence_length one_follows
    two_follow three_follow safe_utf8_prefix_length advance advance_three
append_torn_first = refl

append_torn_second :
    append_string_n given empty (some (drop (safe_utf8_prefix_length (some torn)) torn))
    ≡ ok (
        written
          (b'\\' ∷ b'u' ∷ b'0' ∷ b'0' ∷ b'e' ∷ b'2' ∷ b'\\' ∷ b'u' ∷ b'0' ∷ b'0' ∷ b'8' ∷ b'2' ∷ [])
          256)
unfolding append_string_n classify short_escape unicode_escape sequence_length one_follows
    two_follow three_follow safe_utf8_prefix_length advance advance_three
append_torn_second = refl

append_refused : append_string (λ size. false) empty (some sample) ≡ err enomem
unfolding append_string
append_refused = refl

append_sample : append_string given empty (some (b'"' ∷ [])) ≡ ok (written (b'\\' ∷ b'"' ∷ []) 256)
unfolding append_string escape_chunk short_escape unicode_escape
append_sample = refl

empty-room : IsBuilder empty
empty-room = record { room = inr (refl, refl); bounded = omega arith }

json_escape-exact_example : json_escape (some 11) (some sample) ≡ err enospc
unfolding escape_chunk short_escape unicode_escape
json_escape-exact_example = json_escape-exact 11 sample (omega arith) (omega arith)

json_escape_reads_example :
    read_string
      (b'a' ∷ b'\\' ∷ b'"' ∷ b'\\' ∷ b'n' ∷ b'\\' ∷ b'u' ∷ b'0' ∷ b'0' ∷ b'0' ∷ b'1' ∷ b'"' ∷ [])
    ≡ some (sample, [])
json_escape_reads_example =
    (json_escape_reads 64 sample _ [] (omega arith) (omega arith) (omega arith) escape_sample).1

reserve-Reserved_example : Reserved given empty 300 (reserve given empty 300)
reserve-Reserved_example = reserve-Reserved given empty 300 empty-room

append_string_reads_example :
    (body : Bytes) × (quote ∷ b'\\' ∷ b'"' ∷ b'"' ∷ [] ≡ quote ∷ body)
    × (read_string body ≡ some (b'"' ∷ [], []))
    × IsBuilder (written (b'\\' ∷ b'"' ∷ []) 256)
append_string_reads_example =
    append_string_reads given empty (written (b'\\' ∷ b'"' ∷ []) 256) (b'"' ∷ []) empty-room
      (omega arith) append_sample

append_string_n_reads_example :
    (body : Bytes) × (whole.text ≡ quote ∷ body)
    × (read_string body ≡ some (repair 0 torn, []))
    × IsUtf8 (repair 0 torn)
    × (IsUtf8 torn → repair 0 torn ≡ torn)
append_string_n_reads_example =
    append_string_n_reads given empty whole torn empty-room (omega arith) append_torn

-- A Greek letter, and the first two bytes of the sign of the euro.
safe_utf8_prefix_length-cut_example :
    safe_utf8_prefix_length (some ((0xce ∷ 0xb1 ∷ []) ++ (0xe2 ∷ 0x82 ∷ []))) ≡ 2 + 0
safe_utf8_prefix_length-cut_example =
    safe_utf8_prefix_length-cut (0xce ∷ 0xb1 ∷ []) (0xe2 ∷ 0x82 ∷ []) 0 (two refl refl done)
      (two_of_three 0x80 0xbf (inr (inr (inl refl, refl, refl))) refl)
