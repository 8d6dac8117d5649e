-- ===== src/Config/Lookup.antt =====
-- Looking up what was added.
use cubicle.Base.{
  arith, [], ◌∷◌, refl, Bytes, true, ◌≡◌, ◌&&◌, inr, Bool-cases, ◌==◌, ap, inl, List, Option, some,
  if◌then◌else◌, false, subst, none, Option-cases, ◌++◌, sym, ◌∙◌, Bool, ℕ,
}
use cubicle.Config.File.{
  Entry, same_text, matches, get_string, replace_value, keep_entry, add_entry, ConfigFile,
  append_entry, can_copy,
}

pub same_text_refl : (a : Bytes) → same_text a a ≡ true
unfolding same_text
same_text_refl [] = refl
same_text_refl (x ∷ a) = ground (arith, same_text_refl a)

pub same_text-eq : (a b : Bytes) → same_text a b ≡ true → a ≡ b
unfolding same_text
same_text-eq [] [] h = refl
same_text-eq [] (y ∷ b) h = cc
same_text-eq (x ∷ a) [] h = cc
same_text-eq (x ∷ a) (y ∷ b) h = elim (Bool-cases (x == y)) [
  | inl same ↦
      let heads : x ≡ y = ground arith in
      let tails : same_text a b ≡ true = rw⁻¹ (ap (λ t. t && same_text a b) same) h in
      cc (heads, same_text-eq a b tails)
  | inr other ↦ cc (h, ap (λ t. t && same_text a b) other)
]

-- An entry is found by its own group and key only.
matches-eq : (g k : Bytes) (e : Entry) → matches g k e ≡ true → (e.group ≡ g) × (e.key ≡ k)
unfolding matches
matches-eq g k e h = elim (Bool-cases (same_text e.group g)) [
  | inl same ↦
      let keys : same_text e.key k ≡ true = rw⁻¹ (ap (λ t. t && same_text e.key k) same) h in
      (same_text-eq e.group g same, same_text-eq e.key k keys)
  | inr other ↦ cc (h, ap (λ t. t && same_text e.key k) other)
]

matches-same :
    (g k g' k' v : Bytes) (e : Entry)
    → matches g k e ≡ true
    → matches g' k' e ≡ matches g' k' (record { group = g; key = k; value = v })
unfolding matches
matches-same g k g' k' v e h =
    let same = matches-eq g k e h in
    cc (
      ap (λ t. same_text t g' && same_text e.key k') same.0,
      ap (λ t. same_text g g' && same_text t k') same.1,
    )

matches-of : (g k : Bytes) (e : Entry) → e.group ≡ g → e.key ≡ k → matches g k e ≡ true
unfolding matches
matches-of g k e same_group same_key = cc (
  same_text_refl k,
  ap (λ t. same_text t g && same_text e.key k) same_group,
  ap (λ t. same_text g g && same_text t k) same_key,
  ap (λ t. t && same_text k k) (same_text_refl g),
)

matches-value : (g k v : Bytes) (e : Entry) → matches g k (record e { value = v }) ≡ matches g k e
unfolding matches
matches-value g k v e = refl

-- What a lookup finds after `value` was given to that group and key.
abbrev pub found_after : List Entry → Entry → Bytes → Bytes → Option Bytes
found_after entries new group key =
    if matches group key new then some new.value else get_string entries group key

module _ (g k v g' k' : Bytes) where
  abbrev new_entry : Entry
  new_entry = record { group = g; key = k; value = v }

  get_string-cons :
      (e : Entry) (entries : List Entry)
      → get_string (e ∷ entries) g' k'
        ≡ (if matches g' k' e then some e.value else get_string entries g' k')
  unfolding get_string
  get_string-cons e entries = refl

  found-swap :
      (e : Entry) (entries : List Entry)
      → matches g k e ≡ false
      → (if matches g' k' e then some e.value else found_after entries new_entry g' k')
        ≡ found_after (e ∷ entries) new_entry g' k'
  found-swap e entries other = elim (Bool-cases (matches g' k' e)) [
    | inl here ↦ elim (Bool-cases (matches g' k' new_entry)) [
      | inl there ↦
          let old = matches-eq g' k' e here in
          let new = matches-eq g' k' new_entry there in
          cc (other, matches-of g k e (old.0 ∙ sym new.0) (old.1 ∙ sym new.1))
      | inr apart ↦ rw (get_string-cons, here, apart)
    ]
    | inr elsewhere ↦ rw (get_string-cons, elsewhere)
  ]

  changed-get_string :
      (e : Entry) (entries : List Entry)
      → matches g k e ≡ true
      → get_string (record e { value = v } ∷ entries) g' k'
        ≡ found_after (e ∷ entries) new_entry g' k'
  changed-get_string e entries here =
      let same = matches-same g k g' k' v e here in
      elim (Bool-cases (matches g' k' new_entry)) [
        | inl there ↦
            rw (
              get_string-cons (record e { value = v }) entries,
              matches-value g' k' v e,
              same,
              there,
            )
        | inr apart ↦ rw (
          get_string-cons (record e { value = v }) entries,
          matches-value g' k' v e,
          same,
          apart,
          get_string-cons e entries,
          same,
          apart,
        )
      ]

  pub replace_value-nil : replace_value g k v [] ≡ none
  unfolding replace_value
  replace_value-nil = refl

  pub replace-here :
      (e : Entry) (entries : List Entry)
      → matches g k e ≡ true
      → replace_value g k v (e ∷ entries) ≡ some (record e { value = v } ∷ entries)
  unfolding replace_value
  replace-here e entries here = rw here

  pub replace-other :
      (e : Entry) (entries : List Entry)
      → matches g k e ≡ false
      → replace_value g k v (e ∷ entries) ≡ keep_entry e (replace_value g k v entries)
  unfolding replace_value
  replace-other e entries other = rw other

  replace-nothing :
      (changed : List Entry)
      → replace_value g k v [] ≡ some changed
      → get_string changed g' k' ≡ found_after [] new_entry g' k'
  unfolding replace_value
  replace-nothing changed h = cc

  replace_value-get_string :
      (entries changed : List Entry)
      → replace_value g k v entries ≡ some changed
      → get_string changed g' k' ≡ found_after entries new_entry g' k'
  unfolding keep_entry
  replace_value-get_string [] changed h = replace-nothing changed h
  replace_value-get_string (e ∷ entries) changed h = elim (Bool-cases (matches g k e)) [
    | inl here ↦
        let same : (record e { value = v } ∷ entries) ≡ changed =
          cc (h, replace-here e entries here) in
        subst (λ t. get_string t g' k' ≡ found_after (e ∷ entries) new_entry g' k') same
          (changed-get_string e entries here)
    | inr other ↦ elim (Option-cases (replace_value g k v entries)) [
      | inl nothing ↦ cc (h, replace-other e entries other, ap (λ o. keep_entry e o) nothing)
      | inr (rest, found) ↦
          let same : (e ∷ rest) ≡ changed =
            cc (h, replace-other e entries other, ap (λ o. keep_entry e o) found) in
          subst (λ t. get_string t g' k' ≡ found_after (e ∷ entries) new_entry g' k') same
            (get_string-cons e rest
              ∙ ap (λ o. if matches g' k' e then some e.value else o)
                  (replace_value-get_string entries rest found)
              ∙ found-swap e entries other)
    ]
  ]

  -- An entry that is not there yet is added behind the others.
  append-get_string :
      (entries : List Entry)
      → replace_value g k v entries ≡ none
      → get_string (entries ++ new_entry ∷ []) g' k' ≡ found_after entries new_entry g' k'
  unfolding keep_entry
  append-get_string [] h = get_string-cons new_entry []
  append-get_string (e ∷ entries) h = elim (Bool-cases (matches g k e)) [
    | inl here ↦ cc (h, replace-here e entries here)
    | inr other ↦ elim (Option-cases (replace_value g k v entries)) [
      | inl nothing ↦
          get_string-cons e (entries ++ new_entry ∷ [])
          ∙ ap (λ o. if matches g' k' e then some e.value else o)
              (append-get_string entries nothing)
          ∙ found-swap e entries other
      | inr (rest, found) ↦ cc (h, replace-other e entries other, ap (λ o. keep_entry e o) found)
    ]
  ]

  pub append_entry-entries :
      (alloc : ℕ → Bool) (file changed : ConfigFile)
      → append_entry alloc file g k v ≡ some changed
      → changed.entries ≡ file.entries ++ new_entry ∷ []
  unfolding append_entry
  append_entry-entries alloc file changed h = ground arith

  pub set_entries :
      (file changed : ConfigFile) (entries : List Entry) (given : Bool)
      → (if given then some (record file { entries = entries }) else none) ≡ some changed
      → changed.entries ≡ entries
  set_entries file changed entries true h =
      let same : record file { entries = entries } ≡ changed = cc in sym (ap (λ f. f.entries) same)
  set_entries file changed entries false h = cc

-- A successful `add_entry` is an update of a map: a lookup of that group and key then gives the new
-- value, and every other lookup gives what it gave before.
pub add_entry-get_string :
    (alloc : ℕ → Bool) (file changed : ConfigFile) (group key value group' key' : Bytes)
    → add_entry alloc file group key value ≡ some changed
    → get_string changed.entries group' key' ≡ (
        if same_text group group' && same_text key key'
        then some value
        else get_string file.entries group' key')
unfolding add_entry matches
add_entry-get_string alloc file changed group key value group' key' h =
    elim (Option-cases (replace_value group key value file.entries)) [
      | inl nothing ↦
          let same : append_entry alloc file group key value ≡ some changed =
            rw (nothing, add_entry) at h in
          rw (append_entry-entries group key value group' key' alloc file changed same)
            (append-get_string group key value group' key' file.entries nothing)
      | inr (entries, found) ↦
          rw
            (set_entries group key value group' key' file changed entries (can_copy alloc value)
              (rw (found, add_entry) at h))
            (replace_value-get_string group key value group' key' file.entries entries found)
    ]
