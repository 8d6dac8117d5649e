-- ===== src/Control/Slots.antt =====
-- The table of clients: who gets a slot, and who loses it.

use cubicle.Base.{
  if◌then◌else◌, true, Option-cases, ℕ, List, ◌==◌, arith, none, some, Option, All, Bool-cases, inr,
  inl, ◌∷◌, [], ◌+◌, ◌≡◌, get_elem?, false, zero, refl, ap, Bool, suc, subst,
}
use cubicle.Control.Client.{Client, is_empty}
use cubicle.Control.Accept.{
  connection, accept_interrupted, accept_would_block, accept_failed, AcceptResult, fill_slot,
  Connection, accepted, Accepted, accept_control_clients, refuse,
}

-- An empty slot holds no descriptor.
abbrev pub IsSlot : Client → Type 0
IsSlot c = is_empty c.kind ≡ true → c.fd ≡ none

-- The descriptors of the connections in the table.
unfoldable pub held : List Client → List ℕ
held [] = []
held (client ∷ clients) = elim client.fd [ none ↦ held clients | some fd ↦ fd ∷ held clients ]

-- The descriptors that the calls of `accept` gave, up to the one after which the loop returns.
unfoldable pub arrivals : List AcceptResult → List ℕ
arrivals [] = []
arrivals (connection c ∷ results) = c.fd ∷ (if c.cloexec then arrivals results else [])
arrivals (accept_interrupted ∷ results) = arrivals results
arrivals (accept_would_block ∷ results) = []
arrivals (accept_failed ∷ results) = []

unfoldable pub hit : ℕ → ℕ → ℕ
hit x y = if x == y then 1 else 0

-- How often `x` is in the list.
unfoldable pub count : ℕ → List ℕ → ℕ
unfolding hit
count x [] = 0
count x (y ∷ ys) = hit x y + count x ys

held-cons :
    (x : ℕ) (client : Client) (clients rest : List Client) (extra : ℕ)
    → count x (held rest) ≡ count x (held clients) + extra
    → count x (held (client ∷ rest)) ≡ count x (held (client ∷ clients)) + extra
unfolding held count
held-cons x client clients rest extra h = elim (Option-cases client.fd) [
  | inl none_e ↦ rw none_e h
  | inr (fd, e) ↦ rw e (omega arith)
]

held-fresh :
    (x : ℕ) (c : Connection) (client : Client) (clients : List Client)
    → client.fd ≡ none
    → count x (held (accepted c client ∷ clients)) ≡ count x (held (client ∷ clients)) + hit x c.fd
unfolding held count
held-fresh x c client clients none_e = rw none_e (omega arith)

-- The clients of one table stand in the same places of another.
abbrev pub Keeps : List Client → List Client → Type 0
Keeps old new =
    (i : ℕ) (client : Client)
    → get_elem? old i ≡ some client
    → is_empty client.kind ≡ false
    → get_elem? new i ≡ some client

Keeps-cons :
    (client : Client) (old new : List Client) → Keeps old new → Keeps (client ∷ old) (client ∷ new)
Keeps-cons client old new h zero other e used = e
Keeps-cons client old new h (suc i) other e used = h i other e used

Keeps-fill :
    (client fresh : Client) (clients : List Client)
    → is_empty client.kind ≡ true
    → Keeps (client ∷ clients) (fresh ∷ clients)
Keeps-fill client fresh clients free zero other e used =
    let same : client ≡ other = cc in cc (free, used, ap (λ c. is_empty c.kind) same)
Keeps-fill client fresh clients free (suc i) other e used = e

-- What filling a slot does: one more descriptor is held, and the other clients stay.
Filled : Connection → List Client → Option (List Client) → Type 0
Filled c clients none = Unit
Filled c clients (some filled) =
    ((x : ℕ) → count x (held filled) ≡ count x (held clients) + hit x c.fd)
    × All IsSlot filled
    × Keeps clients filled

Filled-cons :
    (c : Connection) (client : Client) (clients : List Client) (o : Option (List Client))
    → IsSlot client
    → Filled c clients o
    → Filled c (client ∷ clients) (elim o [ none ↦ none | some filled ↦ some (client ∷ filled) ])
unfolding Filled
Filled-cons c client clients none slot h = tt
Filled-cons c client clients (some filled) slot h = (
  (λ x. held-cons x client clients filled (hit x c.fd) (h.0 x)),
  (slot, h.1),
  Keeps-cons client clients filled h.2,
)

fill_slot-Filled :
    (c : Connection) (clients : List Client)
    → All IsSlot clients
    → Filled c clients (fill_slot c clients)
unfolding fill_slot Filled is_empty
fill_slot-Filled c [] slots = tt
fill_slot-Filled c (client ∷ clients) slots = elim (Bool-cases (is_empty client.kind)) [
  | inl free ↦ rw free (
    (λ x. held-fresh x c client clients (slots.0 free)),
    ((λ e. cc), slots.1),
    Keeps-fill client (accepted c client) clients free,
  )
  | inr used ↦ rw used (
      Filled-cons c client clients (fill_slot c clients) slots.0
        (fill_slot-Filled c clients slots.1))
]

-- What a run of `accept_control_clients` gives.
unfoldable pub Accepts : List AcceptResult → List Client → Accepted → Type 0
Accepts results clients left =
    ((x : ℕ)
      → count x (held left.clients) + count x left.refused
        ≡ count x (held clients) + count x (arrivals results))
    × All IsSlot left.clients
    × Keeps clients left.clients

Accepts-stop :
    (results : List AcceptResult) (clients : List Client) (done : Bool)
    → arrivals results ≡ []
    → All IsSlot clients
    → Accepts results clients (record { clients = clients; refused = []; succeeded = done })
unfolding Accepts count
Accepts-stop results clients done e slots = ((λ x. rw e refl), slots, (λ i client h used. h))

Accepts-refuse :
    (c : Connection) (results : List AcceptResult) (clients : List Client) (left : Accepted)
    → c.cloexec ≡ true
    → Accepts results clients left
    → Accepts (connection c ∷ results) clients (refuse c.fd left)
unfolding Accepts count arrivals
Accepts-refuse c results clients left cloexec h =
    ((λ x. rw cloexec (omega (arith, h.0 x))), h.1, h.2)

Accepts-fill :
    (c : Connection) (results : List AcceptResult) (clients filled : List Client) (left : Accepted)
    → c.cloexec ≡ true
    → Filled c clients (some filled)
    → Accepts results filled left
    → Accepts (connection c ∷ results) clients left
unfolding Accepts count arrivals Filled
Accepts-fill c results clients filled left cloexec f h = (
  (λ x. rw cloexec (omega (arith, h.0 x, f.0 x))),
  h.1,
  (λ i client e used. h.2 i client (f.2 i client e used) used),
)

Accepts-close :
    (c : Connection) (results : List AcceptResult) (clients : List Client)
    → c.cloexec ≡ false
    → All IsSlot clients
    → Accepts
        (connection c ∷ results)
        clients
        (record { clients = clients; refused = c.fd ∷ []; succeeded = false })
unfolding Accepts count arrivals
Accepts-close c results clients bad slots = ((λ x. rw bad refl), slots, (λ i client h used. h))

Accepts-again :
    (results : List AcceptResult) (clients : List Client) (left : Accepted)
    → Accepts results clients left
    → Accepts (accept_interrupted ∷ results) clients left
unfolding Accepts arrivals
Accepts-again results clients left h = h

Filled-slots :
    (c : Connection) (clients filled : List Client)
    → Filled c clients (some filled)
    → All IsSlot filled
unfolding Filled
Filled-slots c clients filled f = f.1

module _ (c : Connection) (results : List AcceptResult) (clients : List Client) where
  accept-closed :
      c.cloexec ≡ false
      → accept_control_clients (connection c ∷ results) clients
        ≡ record { clients = clients; refused = c.fd ∷ []; succeeded = false }
  unfolding accept_control_clients
  accept-closed bad = rw bad

  accept-full :
      c.cloexec ≡ true
      → fill_slot c clients ≡ none
      → accept_control_clients (connection c ∷ results) clients
        ≡ refuse c.fd (accept_control_clients results clients)
  unfolding accept_control_clients
  accept-full cloexec full = rw (cloexec, full)

  accept-blocking :
      (filled : List Client)
      → c.cloexec ≡ true
      → fill_slot c clients ≡ some filled
      → c.nonblocking ≡ false
      → accept_control_clients (connection c ∷ results) clients
        ≡ refuse c.fd (accept_control_clients results clients)
  unfolding accept_control_clients
  accept-blocking filled cloexec e bad = rw (cloexec, e, bad)

  accept-placed :
      (filled : List Client)
      → c.cloexec ≡ true
      → fill_slot c clients ≡ some filled
      → c.nonblocking ≡ true
      → accept_control_clients (connection c ∷ results) clients
        ≡ accept_control_clients results filled
  unfolding accept_control_clients
  accept-placed filled cloexec e unblocked = rw (cloexec, e, unblocked)

-- `accept_control_clients` loses no descriptor and has none twice: each one that a call of `accept`
-- gave is in the table of clients or was closed, as often as it was given, and so are the ones that
-- the table held before. Each client keeps its slot and its state, and empty slots hold none.
pub accept_control_clients-Accepts :
    (results : List AcceptResult) (clients : List Client)
    → All IsSlot clients
    → Accepts results clients (accept_control_clients results clients)
unfolding accept_control_clients arrivals
accept_control_clients-Accepts [] clients slots = Accepts-stop [] clients true refl slots
accept_control_clients-Accepts (accept_interrupted ∷ results) clients slots =
    Accepts-again results clients (accept_control_clients results clients)
      (accept_control_clients-Accepts results clients slots)
accept_control_clients-Accepts (accept_would_block ∷ results) clients slots =
    Accepts-stop (accept_would_block ∷ results) clients true refl slots
accept_control_clients-Accepts (accept_failed ∷ results) clients slots =
    Accepts-stop (accept_failed ∷ results) clients false refl slots
accept_control_clients-Accepts (connection c ∷ results) clients slots =
    let later = accept_control_clients-Accepts results clients slots in
    elim (Bool-cases c.cloexec) [
      | inr bad ↦
          rw (accept-closed c results clients bad) (Accepts-close c results clients bad slots)
      | inl cloexec ↦ elim (Option-cases (fill_slot c clients)) [
        | inl full ↦ rw (accept-full c results clients cloexec full) (
            Accepts-refuse c results clients (accept_control_clients results clients) cloexec later)
        | inr (filled, e) ↦
            let fill : Filled c clients (some filled) =
              subst (λ o. Filled c clients o) e (fill_slot-Filled c clients slots) in
            elim (Bool-cases c.nonblocking) [
              | inr bad ↦ rw (accept-blocking c results clients filled cloexec e bad) (
                  Accepts-refuse c results clients (accept_control_clients results clients) cloexec
                    later)
              | inl unblocked ↦ rw (accept-placed c results clients filled cloexec e unblocked) (
                  Accepts-fill c results clients filled (accept_control_clients results filled)
                    cloexec fill
                    (accept_control_clients-Accepts results filled
                      (Filled-slots c clients filled fill)))
            ]
      ]
    ]
