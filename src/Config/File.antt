-- ===== src/Config/File.antt =====
-- The entries of a configuration file, the lines that it is read from, and the lookups in it. `alloc`
-- says whether the allocator gives a block of that size.
use cubicle.Base.{
  [], false, ◌+◌, Bool, ◌∷◌, not, ◌&&◌, ℕ, some, length, ◌++◌, none, ◌==◌, ◌*◌, true, Option,
  if◌then◌else◌, List, ◌||◌, Bytes, leb,
}

-- `strcmp(a, b) == 0`.
unfoldable pub same_text : Bytes → Bytes → Bool
same_text [] [] = true
same_text (x ∷ a) (y ∷ b) = x == y && same_text a b
same_text _ _ = false

pub record Entry : Type 0 where
  pub group : Bytes
  pub key : Bytes
  pub value : Bytes

pub record ConfigFile : Type 0 where
  pub entries : List Entry
  pub capacity : ℕ

-- `isspace` in the C locale.
abbrev pub is_space : ℕ → Bool
is_space c = c == 32 || leb 9 c && leb c 13

unfoldable pub trim_front : Bytes → Bytes
trim_front [] = []
trim_front (c ∷ text) = let rest = trim_front text in if is_space c then rest else c ∷ text

unfoldable pub trim_back : Bytes → Bytes
trim_back [] = []
trim_back (c ∷ text) = elim (trim_back text) [
  | [] ↦ if is_space c then [] else c ∷ []
  | d ∷ rest ↦ c ∷ d ∷ rest
]

unfoldable pub trim : Bytes → Bytes
trim text = trim_back (trim_front text)

-- `strchr`: what stands before and after the first `c`.
unfoldable pub split_at : ℕ → Bytes → Option (Bytes × Bytes)
split_at c [] = none
split_at c (d ∷ text) =
    let rest : Option (Bytes × Bytes) = elim (split_at c text) [
      | none ↦ none
      | some (front, back) ↦ some (d ∷ front, back)
    ] in
    if d == c then some ([], text) else rest

unfoldable pub matches : Bytes → Bytes → Entry → Bool
matches group key entry = same_text entry.group group && same_text entry.key key

unfoldable pub keep_entry : Entry → Option (List Entry) → Option (List Entry)
keep_entry entry none = none
keep_entry entry (some entries) = some (entry ∷ entries)

-- The loop of `add_entry`: the first entry of that group and key gets the value; `none` without one.
unfoldable pub replace_value : Bytes → Bytes → Bytes → List Entry → Option (List Entry)
replace_value group key value [] = none
replace_value group key value (entry ∷ entries) =
    let rest = keep_entry entry (replace_value group key value entries) in
    if matches group key entry then some (record entry { value = value } ∷ entries) else rest

module _ (alloc : ℕ → Bool) where
  -- `strdup`.
  abbrev pub can_copy : Bytes → Bool
  can_copy text = alloc (length text + 1)

  -- A new entry behind the others; the array of entries of 24 bytes doubles when it is full.
  unfoldable pub append_entry : ConfigFile → Bytes → Bytes → Bytes → Option ConfigFile
  append_entry file group key value =
      let capacity =
        if length file.entries == file.capacity
        then (if file.capacity == 0 then 16 else file.capacity * 2)
        else file.capacity in
      if (length file.entries == file.capacity) && not (alloc (capacity * 24))
      then none
      else if can_copy group && (can_copy key && can_copy value)
      then some (record {
        entries = file.entries ++ record { group = group; key = key; value = value } ∷ [];
        capacity = capacity;
      })
      else none

  -- `none` where memory ran out.
  unfoldable pub add_entry : ConfigFile → Bytes → Bytes → Bytes → Option ConfigFile
  add_entry file group key value = elim (replace_value group key value file.entries) [
    | some entries ↦ if can_copy value then some (record file { entries = entries }) else none
    | none ↦ append_entry file group key value
  ]

-- `cubicle_config_file_get_string`; `none` is `CUBICLE_CONFIG_PARSER_NOT_FOUND`.
unfoldable pub get_string : List Entry → Bytes → Bytes → Option Bytes
get_string [] group key = none
get_string (entry ∷ entries) group key =
    let rest = get_string entries group key in
    if matches group key entry then some entry.value else rest

-- The keys of `cubicle_config_file_get_keys`, in the order of the file.
unfoldable pub get_keys : List Entry → Bytes → List Bytes
get_keys [] group = []
get_keys (entry ∷ entries) group =
    if same_text entry.group group
    then entry.key ∷ get_keys entries group
    else get_keys entries group
