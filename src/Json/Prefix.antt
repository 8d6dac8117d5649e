-- ===== src/Json/Prefix.antt =====
-- `cubicle_json_safe_utf8_prefix_length`: how much of a chunk of output is sent now; what is left of a
-- character that the chunk cuts waits for the next one.
use cubicle.Json.Chunk.{byte_in, within, three_follow, two_follow, one_follows}
use cubicle.Base.{
  ◌∷◌, zero, false, not, ◌&&◌, ◌==◌, ◌+◌, none, get_elem?, ◌||◌, ℕ, ltb, Bool, true, suc, Bytes,
  some, [], ◌-◌, if◌then◌else◌, Option,
}

-- `i + k >= value_length`, on the bytes from `i` on.
abbrev ends_by : Bytes → ℕ → Bool
ends_by s k = elim (get_elem? s k) [ none ↦ true | some c ↦ false ]

-- The branches of a three-byte lead, whose second byte is in `lo .. hi`; `none` is `break`.
unfoldable pub advance_three : Bytes → ℕ → ℕ → Option ℕ
advance_three s lo hi =
    if ends_by s 2
    then (if not (ends_by s 1) && byte_in s 1 lo hi then none else some 1)
    else if two_follow s lo hi
    then some 3
    else some 1

-- The branches of a four-byte lead.
unfoldable pub advance_four : Bytes → ℕ → ℕ → Option ℕ
advance_four s lo hi =
    if ends_by s 3
    then (if not (ends_by s 1) && (byte_in s 1 lo hi && (ends_by s 2 || byte_in s 2 0x80 0xbf))
        then none
        else some 1)
    else if three_follow s lo hi
    then some 4
    else some 1

unfoldable pub advance_two : Bytes → Option ℕ
advance_two s = if ends_by s 1 then none else some (if one_follows s then 2 else 1)

-- How far `i` moves at byte `c`, the first of `s`.
unfoldable pub advance : ℕ → Bytes → Option ℕ
advance c s =
    if ltb c 0x80
    then some 1
    else if within 0xc2 0xdf c
    then advance_two s
    else if c == 0xe0
    then advance_three s 0xa0 0xbf
    else if within 0xe1 0xec c
    then advance_three s 0x80 0xbf
    else if c == 0xed
    then advance_three s 0x80 0x9f
    else if within 0xee 0xef c
    then advance_three s 0x80 0xbf
    else if c == 0xf0
    then advance_four s 0x90 0xbf
    else if within 0xf1 0xf3 c
    then advance_four s 0x80 0xbf
    else if c == 0xf4
    then advance_four s 0x80 0x8f
    else some 1

-- The loop: `safe` is both `safe` and the `i` at which the byte in front of it was read, since each
-- branch sets `safe = i`; `skip` bytes in front were passed with the byte before them.
unfoldable pub safe_loop : ℕ → ℕ → Bytes → ℕ
safe_loop safe skip [] = safe
safe_loop safe (suc skip) (c ∷ s) = safe_loop safe skip s
safe_loop safe zero (c ∷ s) = elim (advance c (c ∷ s)) [
  | none ↦ safe
  | some n ↦ safe_loop (safe + n) (n - 1) s
]

-- `none` is a null pointer.
unfoldable pub safe_utf8_prefix_length : Option Bytes → ℕ
unfolding safe_loop
safe_utf8_prefix_length none = 0
safe_utf8_prefix_length (some value) = safe_loop 0 0 value
