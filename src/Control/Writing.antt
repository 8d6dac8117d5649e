-- ===== src/Control/Writing.antt =====
-- The response buffer: what queueing does, on every branch.
use cubicle.Control.Valid.{IsClient}
use cubicle.Control.Enqueue.{enqueue_response, grow_response, grow_fuel}
use cubicle.Base.{
  arith, ◌++◌, Bool-cases, Bytes, ◌^◌, ◌||◌, Bool, suc, inr, ◌<◌, ltb→ge, ap, ℕ, refl, ◌+◌, ◌-◌,
  false, zero, ltb, inl, ◌==◌, ◌⊎◌, ◌/◌, true, ◌*◌, length, ge→ltb, if◌then◌else◌, ◌≡◌, ◌≤◌, ltb→lt,
}
use cubicle.Control.Client.{Client, response_max}
use native.Mathlib.Nat.{pow-suc}

grow_response-at_max :
    (fuel required : ℕ)
    → required ≤ response_max
    → grow_response fuel required response_max ≡ response_max
unfolding grow_response
grow_response-at_max zero required fits = refl
grow_response-at_max (suc fuel) required fits = rw (ge→ltb response_max required fits)

IsGrown : ℕ → ℕ → ℕ → Type 0
IsGrown required capacity grown = (required ≤ grown) × (capacity ≤ grown) × (grown ≤ response_max)

-- Doubling ends when the fuel takes the capacity past the limit.
grow_response-IsGrown :
    (fuel required capacity : ℕ)
    → 0 < capacity
    → capacity ≤ response_max
    → required ≤ response_max
    → response_max ≤ capacity * 2 ^ fuel
    → IsGrown required capacity (grow_response fuel required capacity)
unfolding grow_response IsGrown
grow_response-IsGrown zero required capacity pos bound fits enough =
    (omega arith, omega arith, bound)
grow_response-IsGrown (suc fuel) required capacity pos bound fits enough =
    elim (Bool-cases (ltb capacity required)) [
      | inr enough_room ↦ rw enough_room (ltb→ge capacity required enough_room, omega arith, bound)
      | inl short ↦ rw short (elim (Bool-cases (ltb (response_max / 2) capacity)) [
        | inl high ↦ rw (high, grow_response-at_max fuel required fits) (fits, bound, omega arith)
        | inr low ↦
            let half = ltb→ge (response_max / 2) capacity low in
            let grown : IsGrown required (2 * capacity)
                (grow_response fuel required (2 * capacity)) =
              grow_response-IsGrown fuel required (2 * capacity) (omega arith) (ground arith) fits
                (omega (arith, pow-suc 2 fuel, ap (λ (t : ℕ). capacity * t) (pow-suc 2 fuel))) in
            rw low (grown.0, omega arith, grown.2)
      ])
    ]

first_capacity :
    (capacity required : ℕ)
    → capacity ≤ response_max
    → required ≤ response_max
    → IsGrown required capacity
        (grow_response grow_fuel required (if capacity == 0 then 4096 else capacity))
unfolding IsGrown
first_capacity capacity required bound fits = elim (Bool-cases (capacity == 0)) [
  | inl none_yet ↦
      let grown : IsGrown required 4096 (grow_response grow_fuel required 4096) =
        grow_response-IsGrown grow_fuel required 4096 (omega arith) (omega arith) fits
          (omega arith) in
      rw none_yet (grown.0, ground arith, grown.2)
  | inr some_bytes ↦
      rw some_bytes
        (grow_response-IsGrown grow_fuel required capacity (ground arith) bound fits (ground arith))
]

-- What a call that queues `buffer` gives: with success the bytes stand behind the ones that wait,
-- inside a block of at most 4 MiB, and nothing else of the client changes; failure leaves the client
-- as it was, and is for want of room below 4 MiB for the whole response, what is sent of it included,
-- or because the present block is too small and the allocator refused a larger one that has the room.
unfoldable pub Queued : (ℕ → Bool) → Client → Bytes → Client × Bool → Type 0
Queued alloc c buffer (left, true) =
    (capacity : ℕ) × (left
      ≡ record c { response = c.response ++ buffer; response_capacity = capacity })
    × (length c.response + length buffer ≤ capacity)
    × (c.response_capacity ≤ capacity)
    × (capacity ≤ response_max)
Queued alloc c buffer (left, false) =
    (left ≡ c)
    × ((response_max < length c.response + length buffer)
        ⊎ ((capacity : ℕ) × (alloc capacity ≡ false)
            × (c.response_capacity < length c.response + length buffer)
            × (length c.response + length buffer ≤ capacity)
            × (capacity ≤ response_max)))

enqueue_fits :
    (c : Client) (buffer : Bytes)
    → IsClient c
    → (ltb response_max (length buffer) || ltb (response_max - length buffer) (length c.response))
      ≡ false
    → length c.response + length buffer ≤ response_max
enqueue_fits c buffer v h = ground arith

enqueue_over :
    (c : Client) (buffer : Bytes)
    → (ltb response_max (length buffer) || ltb (response_max - length buffer) (length c.response))
      ≡ true
    → response_max < length c.response + length buffer
enqueue_over c buffer h = ground arith

module _ (alloc : ℕ → Bool) where
  -- `enqueue_response` on a client in order queues the bytes behind the response, or leaves the client as
  -- it was. It fails only when the response with the buffer, bytes that were already sent included, has
  -- more than 4 MiB, or when it does not fit the present block and the allocator refuses a larger one.
  pub enqueue_response-Queued :
      (c : Client) (buffer : Bytes)
      → IsClient c
      → Queued alloc c buffer (enqueue_response alloc c buffer)
  unfolding enqueue_response Queued IsGrown
  enqueue_response-Queued c buffer v =
      let start = if c.response_capacity == 0 then 4096 else c.response_capacity in
      let required = length c.response + length buffer in
      elim (Bool-cases (
        ltb response_max (length buffer)
        || ltb (response_max - length buffer) (length c.response))) [
          | inl over ↦ rw over (refl, inl (enqueue_over c buffer over))
          | inr room ↦
              let fits = enqueue_fits c buffer v room in
              let grown = first_capacity c.response_capacity required v.capacity_fits fits in
              rw room (elim (Bool-cases (ltb c.response_capacity required)) [
                | inr roomy ↦ rw roomy (
                  c.response_capacity,
                  refl,
                  ltb→ge c.response_capacity required roomy,
                  omega arith,
                  v.capacity_fits,
                )
                | inl short ↦
                    rw short (elim (Bool-cases (alloc (grow_response grow_fuel required start))) [
                      | inl given ↦
                          rw given (
                            grow_response grow_fuel required start,
                            refl,
                            grown.0,
                            grown.1,
                            grown.2,
                          )
                      | inr refused ↦ rw refused (
                        refl,
                        inr (
                          grow_response grow_fuel required start,
                          refused,
                          ltb→lt c.response_capacity required short,
                          grown.0,
                          grown.2,
                        ),
                      )
                    ])
              ])
        ]
