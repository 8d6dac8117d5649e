-- ===== src/Config/Distinct.antt =====
-- The bindings of the keys stay distinct.
use cubicle.Config.KeyParser.{parse_desk_key_name}
use cubicle.Config.File.{same_text}
use cubicle.Json.Sequence.{and_left, and_right}
use cubicle.Base.{
  ℕ, Bytes, none, some, true, false, [], All, ◌≡◌, List, ◌∷◌, sym, if◌then◌else◌, ◌≤◌, inl, ◌||◌,
  ◌⊎◌, Bool, Option-cases, ◌+◌, inr, Bool-cases, length, ◌&&◌, refl, subst, ◌∙◌, not, arith, ◌≢◌,
  ap, codes, leb, ◌<◌,
}
use cubicle.Config.Lookup.{same_text-eq}
use cubicle.Config.Bindings.{
  Binding, same_key, place, add_desk_key_binding, validate_desk_key_conflicts, same_flag,
  conflicts_with, binding_max, desk_command_is_known, command_name_max, new_binding,
}

-- No two bindings are of the same key.
abbrev pub IsDistinct : List Binding → Type 0
IsDistinct [] = Unit
IsDistinct (b ∷ rest) = All (λ x. same_key b x ≡ false) rest × IsDistinct rest

-- What placing a binding in front of others makes.
abbrev Placed : Binding → List Binding → Binding → List Binding → Type 0
Placed existing rest binding placed =
    ((same_key existing binding ≡ true) × (placed ≡ rest))
    ⊎ (((same_key existing binding ≡ true) × (placed ≡ binding ∷ rest))
        ⊎ ((same_key existing binding ≡ false)
            × ((later : List Binding) × (place binding rest ≡ some later)
                × (placed ≡ existing ∷ later))))

some-injective : {x y : List Binding} → some x ≡ some y → x ≡ y
some-injective h = ground arith

none-some_ne : {x : List Binding} → none ≢ some x
none-some_ne h = ground arith

taken_or_replaced :
    (unbind builtin : Bool) (binding : Binding) (rest placed : List Binding)
    → (if unbind then some rest else if builtin then some (binding ∷ rest) else none) ≡ some placed
    → (placed ≡ rest) ⊎ (placed ≡ binding ∷ rest)
taken_or_replaced true builtin binding rest placed h = inl (sym (some-injective h))
taken_or_replaced false true binding rest placed h = inr (sym (some-injective h))
taken_or_replaced false false binding rest placed h = absurd (none-some_ne h)

place-Placed :
    (binding existing : Binding) (rest placed : List Binding)
    → place binding (existing ∷ rest) ≡ some placed
    → Placed existing rest binding placed
unfolding place
place-Placed binding existing rest placed h = elim (Bool-cases (same_key existing binding)) [
  | inl same ↦
      elim (taken_or_replaced binding.unbind existing.builtin binding rest placed
        (sym (rw (place, same) refl) ∙ h)) [
          | inl taken ↦ inl (same, taken)
          | inr replaced ↦ inr (inl (same, replaced))
        ]
  | inr other ↦ elim (Option-cases (place binding rest)) [
    | inl refused ↦
        let nothing : place binding (existing ∷ rest) ≡ none =
          rw (place, other) (rw refused refl) in
        absurd (none-some_ne (sym nothing ∙ h))
    | inr (later, e) ↦
        let some_list : place binding (existing ∷ rest) ≡ some (existing ∷ later) =
          rw (place, other) (rw e refl) in
        inr (inr (other, (later, e, some-injective (sym h ∙ some_list))))
  ]
]

placed_alone :
    (binding : Binding) (placed : List Binding)
    → place binding [] ≡ some placed
    → (placed ≡ []) ⊎ (placed ≡ binding ∷ [])
unfolding place
placed_alone binding placed h = by_flag binding.unbind h
  where
    by_flag :
        (unbind : Bool)
        → some (if unbind then [] else binding ∷ []) ≡ some placed
        → (placed ≡ []) ⊎ (placed ≡ binding ∷ [])
    by_flag true e = inl (sym (some-injective e))
    by_flag false e = inr (sym (some-injective e))

place-All :
    (P : Binding → Type 0) (binding : Binding) (bindings placed : List Binding)
    → All P bindings
    → P binding
    → place binding bindings ≡ some placed
    → All P placed
place-All P binding [] placed all here h = elim (placed_alone binding placed h) [
  | inl e ↦ subst (All P) (sym e) tt
  | inr e ↦ subst (All P) (sym e) (here, tt)
]
place-All P binding (existing ∷ rest) placed all here h =
    elim (place-Placed binding existing rest placed h) [
      | inl (same, e) ↦ subst (All P) (sym e) all.1
      | inr (inl (same, e)) ↦ subst (All P) (sym e) (here, all.1)
      | inr (inr (other, (later, e, k))) ↦
          subst (All P) (sym k) (all.0, place-All P binding rest later all.1 here e)
    ]

same_flag_eq : (a b : Bool) → same_flag a b ≡ true → a ≡ b
same_flag_eq true b h = sym h
same_flag_eq false true h = absurd (ground arith)
same_flag_eq false false h = refl

-- Bindings of one key are the same for every other.
same_key_left :
    (a b : Binding) (bindings : List Binding)
    → same_key a b ≡ true
    → All (λ x. same_key a x ≡ false) bindings
    → All (λ x. same_key b x ≡ false) bindings
same_key_left a b [] h all = tt
same_key_left a b (x ∷ bindings) h all =
    let flag =
      same_flag_eq a.uses_prefix b.uses_prefix (and_left _ (same_text a.sequence b.sequence) h) in
    let text =
      same_text-eq a.sequence b.sequence (and_right (same_flag a.uses_prefix b.uses_prefix) _ h) in
    (
      sym (
            ap (λ f. same_flag f x.uses_prefix && same_text a.sequence x.sequence) flag
            ∙ ap (λ s. same_flag b.uses_prefix x.uses_prefix && same_text s x.sequence) text)
          ∙ all.0,
      same_key_left a b bindings h all.1,
    )

place-IsDistinct :
    (binding : Binding) (bindings placed : List Binding)
    → IsDistinct bindings
    → place binding bindings ≡ some placed
    → IsDistinct placed
place-IsDistinct binding [] placed distinct h = elim (placed_alone binding placed h) [
  | inl e ↦ subst IsDistinct (sym e) tt
  | inr e ↦ subst IsDistinct (sym e) (tt, tt)
]
place-IsDistinct binding (existing ∷ rest) placed distinct h =
    elim (place-Placed binding existing rest placed h) [
      | inl (same, e) ↦ subst IsDistinct (sym e) distinct.1
      | inr (inl (same, e)) ↦
          subst IsDistinct (sym e) (same_key_left existing binding rest same distinct.0, distinct.1)
      | inr (inr (other, (later, e, k))) ↦ subst IsDistinct (sym k) (
        place-All (λ x. same_key existing x ≡ false) binding rest later distinct.0 other e,
        place-IsDistinct binding rest later distinct.1 e,
      )
    ]

length-place :
    (binding : Binding) (bindings placed : List Binding)
    → place binding bindings ≡ some placed
    → length placed ≤ length bindings + 1
length-place binding [] placed h = elim (placed_alone binding placed h) [
  | inl e ↦ omega (arith, ap length e)
  | inr e ↦ omega (arith, ap length e)
]
length-place binding (existing ∷ rest) placed h =
    elim (place-Placed binding existing rest placed h) [
      | inl (same, e) ↦ omega (arith, ap length e)
      | inr (inl (same, e)) ↦ omega (arith, ap length e)
      | inr (inr (other, (later, e, k))) ↦
          omega (arith, ap length k, length-place binding rest later e)
    ]

conflicts_with-distinct :
    (left : Binding) (rest : List Binding)
    → All (λ x. same_key left x ≡ false) rest
    → conflicts_with left rest ≡ false
unfolding conflicts_with
conflicts_with-distinct left [] h = refl
conflicts_with-distinct left (right ∷ rest) h =
    rw (conflicts_with, h.0)
      (no_conflict (not right.unbind) (conflicts_with left rest)
        (conflicts_with-distinct left rest h.1))
  where
    no_conflict : (a b : Bool) → b ≡ false → ((a && false) || b) ≡ false
    no_conflict a b e = ground arith

validate-distinct :
    (bindings : List Binding) → IsDistinct bindings → validate_desk_key_conflicts bindings ≡ true
unfolding validate_desk_key_conflicts
validate-distinct [] h = refl
validate-distinct (left ∷ rest) h =
    both_pass (not left.unbind) (conflicts_with left rest) (validate_desk_key_conflicts rest)
      (conflicts_with-distinct left rest h.0) (validate-distinct rest h.1)
  where
    both_pass : (a b c : Bool) → b ≡ false → c ≡ true → (not (a && b) && c) ≡ true
    both_pass a b c e k = ground arith

leb→gt : (a b : ℕ) → leb a b ≡ false → b < a
leb→gt a b h = ground arith

-- A call that succeeds has placed a binding among less than 64.
add-placed :
    (bindings after : List Binding) (key_name command : Bytes) (builtin : Bool)
    → add_desk_key_binding bindings key_name command builtin ≡ some after
    → (binding : Binding) × (place binding bindings ≡ some after) × (length bindings < binding_max)
unfolding add_desk_key_binding
add-placed bindings after key_name command builtin h =
    elim (Bool-cases (leb binding_max (length bindings))) [
      | inl full ↦ absurd (none-some_ne (sym (rw (add_desk_key_binding, full) refl) ∙ h))
      | inr room ↦ elim (Option-cases (parse_desk_key_name key_name)) [
        | inl bad ↦ absurd (none-some_ne (sym (rw (add_desk_key_binding, room) (rw bad refl)) ∙ h))
        | inr (parsed, e) ↦
            let unbind = same_text command (codes "none") in
            elim (Bool-cases (not unbind && not (desk_command_is_known command))) [
              | inl unknown ↦ absurd (
                  none-some_ne (sym (rw (add_desk_key_binding, room) (rw e (rw unknown refl))) ∙ h))
              | inr known ↦ elim (Bool-cases (leb command_name_max (length command))) [
                | inl long ↦ absurd (
                    none-some_ne
                      (sym (rw (add_desk_key_binding, room) (rw e (rw known (rw long refl)))) ∙ h))
                | inr fits ↦ (
                  new_binding parsed command unbind builtin,
                  sym (rw (add_desk_key_binding, room) (rw e (rw known (rw fits refl)))) ∙ h,
                  leb→gt binding_max (length bindings) room,
                )
              ]
            ]
      ]
    ]

-- Adding a binding to distinct ones, be it a new one, one that takes the place of a built-in one or one
-- that unbinds a key, leaves them distinct and no more than 64; such a list passes the check for
-- conflicts that is made in the end.
pub add_desk_key_binding-IsDistinct :
    (bindings after : List Binding) (key_name command : Bytes) (builtin : Bool)
    → IsDistinct bindings
    → add_desk_key_binding bindings key_name command builtin ≡ some after
    → IsDistinct after × (length after ≤ binding_max) × (validate_desk_key_conflicts after ≡ true)
add_desk_key_binding-IsDistinct bindings after key_name command builtin distinct h =
    let (binding, placed, room) = add-placed bindings after key_name command builtin h in
    let still = place-IsDistinct binding bindings after distinct placed in
    (
      still,
      omega (arith, length-place binding bindings after placed),
      validate-distinct after still,
    )
