-- ===== src/Json/Growth.antt =====
-- The builder's storage: `reserve` makes room or says why it cannot, and never changes the text.
use cubicle.Json.Builder.{Builder, grow, resize, reserve, grow_fuel}
use cubicle.Base.Result.{Result, enomem, eoverflow, ok, err, Errno, ◌>>=◌}
use cubicle.Base.{
  false, ◌+◌, arith, ◌≤◌, refl, suc, inr, ◌≡◌, ◌*◌, Bool, inl, zero, ℕ, leb→le, length, ◌⊎◌, ◌-◌,
  leb, ◌/◌, Bool-cases, ◌^◌, ltb, size_mod, ap, ◌<◌, if◌then◌else◌, ◌==◌, ltb→lt,
}
use native.Mathlib.Nat.{pow-suc}

-- The text and its terminator lie inside the block; a builder with no block has no text.
pub record IsBuilder (b : Builder) : Type 0 where
  pub room : (length b.text < b.capacity) ⊎ ((length b.text ≡ 0) × (b.capacity ≡ 0))
  pub bounded : b.capacity < size_mod

abbrev Grown : ℕ → ℕ → Result ℕ → Type 0
Grown needed capacity (ok c) = (needed ≤ c) × (capacity ≤ c) × (c < size_mod)
Grown needed capacity (err e) = (e ≡ eoverflow) × (2 ^ 63 < needed)

Grown-weaken :
    (needed capacity : ℕ) (r : Result ℕ) → Grown needed (2 * capacity) r → Grown needed capacity r
Grown-weaken needed capacity (ok c) g = (g.0, omega arith, g.2)
Grown-weaken needed capacity (err e) g = g

-- Doubling ends: the fuel may be any number of doublings that passes every `size_t`.
grow-Grown :
    (fuel needed capacity : ℕ)
    → 0 < capacity
    → capacity < size_mod
    → size_mod ≤ capacity * 2 ^ fuel
    → Grown needed capacity (grow fuel needed capacity)
unfolding grow
grow-Grown zero needed capacity pos bound enough = absurd (omega arith)
grow-Grown (suc fuel) needed capacity pos bound enough = elim (Bool-cases (leb needed capacity)) [
  | inl fits ↦ rw fits (leb→le needed capacity fits, omega arith, bound)
  | inr short ↦ rw short (elim (Bool-cases (ltb ((size_mod - 1) / 2) capacity)) [
    | inl huge ↦ rw huge (refl, ground arith)
    | inr small ↦ rw small (
        Grown-weaken needed capacity (grow fuel needed (2 * capacity)) (
          grow-Grown fuel needed (2 * capacity) (omega arith) (ground arith)
            (omega (arith, pow-suc 2 fuel, ap (λ (t : ℕ). capacity * t) (pow-suc 2 fuel)))))
  ])
]

-- Why a call that wants `total` bytes of text fails: the allocator refused, or the size passes 2 ^ 63.
abbrev pub Fails : (ℕ → Bool) → ℕ → Errno → Type 0
Fails alloc total e =
    ((e ≡ enomem) × ((c : ℕ) × (alloc c ≡ false))) ⊎ ((e ≡ eoverflow) × (2 ^ 63 ≤ total + 1))

abbrev pub Reserved : (ℕ → Bool) → Builder → ℕ → Result Builder → Type 0
Reserved alloc b extra (ok r) =
    (r.text ≡ b.text)
    × (length b.text + extra < r.capacity)
    × (b.capacity ≤ r.capacity)
    × IsBuilder r
Reserved alloc b extra (err e) = Fails alloc (length b.text + extra) e

resize-Reserved :
    (alloc : ℕ → Bool) (b : Builder) (extra start : ℕ) (g : Result ℕ)
    → IsBuilder b
    → b.capacity ≤ start
    → Grown (length b.text + extra + 1) start g
    → Reserved alloc b extra (g >>= resize alloc b)
unfolding resize
resize-Reserved alloc b extra start (err e) v h g = inr (g.0, omega arith)
resize-Reserved alloc b extra start (ok c) v h g = elim (Bool-cases (alloc c)) [
  | inl given ↦
      rw given (refl, omega arith, omega arith, record { room = inl (omega arith); bounded = g.2 })
  | inr refused ↦ rw refused (inl (refl, (c, refused)))
]

-- `cubicle_json_builder_reserve` on a well-formed builder: with success there is room for `extra`
-- bytes and the terminator, the text is what it was and the builder stays well-formed; it fails with
-- `ENOMEM` only if the allocator refused a block, and with `EOVERFLOW` only from 2 ^ 63 bytes on.
pub reserve-Reserved :
    (alloc : ℕ → Bool) (b : Builder) (extra : ℕ)
    → IsBuilder b
    → Reserved alloc b extra (reserve alloc b extra)
unfolding reserve
reserve-Reserved alloc b extra v =
    elim (Bool-cases (ltb (size_mod - 1 - length b.text - 1) extra)) [
      | inl huge ↦ rw huge (inr (refl, omega (arith, ltb→lt _ _ huge)))
      | inr small ↦ rw small (elim (Bool-cases (leb (length b.text + extra + 1) b.capacity)) [
        | inl fits ↦ rw fits (refl, omega (arith, leb→le _ _ fits), omega arith, v)
        | inr short ↦ rw short (
            resize-Reserved alloc b extra start (grow grow_fuel _ start) v (ground arith)
              (grow-Grown grow_fuel _ start (ground arith) (ground arith) enough))
      ])
    ]
  where
    start : ℕ
    start = if b.capacity == 0 then 256 else b.capacity

    enough : size_mod ≤ start * 2 ^ grow_fuel
    enough = ground arith
