-- ===== src/Desk/Names.antt =====
-- The names of saved layouts. `isalnum` is that of the C locale.
use cubicle.Base.{
  ℕ, Bytes, Option, none, some, ◌++◌, drop, ◌||◌, [], not, if◌then◌else◌, ◌-◌, ◌&&◌, length, ◌∷◌,
  true, false, codes, leb, Bool, ◌==◌,
}

unfoldable pub is_alnum : ℕ → Bool
is_alnum c =
    (leb b'0' c && leb c b'9') || ((leb b'A' c && leb c b'Z') || (leb b'a' c && leb c b'z'))

abbrev pub is_safe_byte : ℕ → Bool
unfolding is_alnum
is_safe_byte c = is_alnum c || (c == b'-' || (c == b'_' || c == b'.'))

unfoldable pub all_safe : Bytes → Bool
unfolding is_safe_byte
all_safe [] = true
all_safe (c ∷ name) = let rest = all_safe name in if is_safe_byte c then rest else false

abbrev pub same_bytes : Bytes → Bytes → Bool
same_bytes [] [] = true
same_bytes (a ∷ s) (b ∷ t) = a == b && same_bytes s t
same_bytes _ _ = false

unfoldable pub layout_name_is_safe : Bytes → Bool
unfolding all_safe
layout_name_is_safe name =
    if length name == 0 || (same_bytes name (codes ".") || same_bytes name (codes ".."))
    then false
    else all_safe name

abbrev pub suffix : Bytes
suffix = codes ".layout"

unfoldable pub layout_has_suffix : Bytes → Bool
layout_has_suffix path =
    leb (length suffix) (length path) && same_bytes (drop (length path - length suffix) path) suffix

abbrev pub layout_path_max : ℕ
layout_path_max = 4096

unfoldable pub layout_path_from_name : Bytes → Option Bytes
unfolding layout_name_is_safe layout_has_suffix
layout_path_from_name name =
    if not (layout_name_is_safe name)
    then none
    else (let path = name ++ (if layout_has_suffix name then [] else suffix) in
        if leb layout_path_max (length path) then none else some path)
