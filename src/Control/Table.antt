-- ===== src/Control/Table.antt =====
-- Operations on the whole table of clients: broadcasting output and reaping idle connections.
use cubicle.Control.Valid.{IsClient}
use cubicle.Control.Enqueue.{
  broadcast_loop, broadcast_one, broadcast_attached_output, enqueue_response,
}
use cubicle.Control.Writing.{Queued, enqueue_response-Queued}
use cubicle.Base.{
  true, inr, ℕ, map, false, inl, Option-cases, [], append-nil, ◌⊎◌, if◌then◌else◌, Bytes, ◌≡◌, List,
  Bool, ◌<◌, refl, arith, Bool-cases, zero, All, some, ◌∷◌, suc, ◌==◌, subst, get_elem?, ◌^◌, ◌≢◌,
  ◌≤◌, ◌||◌, ◌+◌,
}
use cubicle.Control.Client.{
  Client, Log, empty, reading, responding, attached_stdout, attached_stderr, attached_stdin,
  attaching_stdin, is_idle, is_attached, reap_idle_control_clients, Kind, close_control_client,
  same_kind, empty_client, detach_events, reap_loop, is_empty,
}

detach-none : (kind : Kind) → is_attached kind ≡ false → detach_events kind ≡ []
unfolding is_attached detach_events
detach-none empty h = refl
detach-none reading h = refl
detach-none responding h = refl
detach-none attached_stdout h = cc
detach-none attached_stderr h = cc
detach-none attaching_stdin h = refl
detach-none attached_stdin h = cc

-- A client that is not attached to a stream is closed without an event.
close-silent :
    (c : Client) (log : Log)
    → is_attached c.kind ≡ false
    → (close_control_client c log) ≡ (empty_client, log)
unfolding close_control_client
close-silent c log h = elim (Option-cases c.fd) [
  | inl none_e ↦ rw none_e refl
  | inr (fd, e) ↦ rw (e, detach-none c.kind h, append-nil) refl
]

idle-unattached : (now : ℕ) (c : Client) → is_idle now c ≡ true → is_attached c.kind ≡ false
unfolding is_idle
idle-unattached now c h = ground arith

reap_loop-reaps :
    (now : ℕ) (clients : List Client) (log : Log)
    → reap_loop now clients log
      ≡ (map (λ c. if is_idle now c then empty_client else c) clients, log)
unfolding reap_loop
reap_loop-reaps now [] log = refl
reap_loop-reaps now (c ∷ clients) log = elim (Bool-cases (is_idle now c)) [
  | inl idle ↦
      rw (idle, close-silent c log (idle-unattached now c idle), reap_loop-reaps now clients log)
  | inr busy ↦ rw (busy, reap_loop-reaps now clients log)
]

get_elem?-reaped :
    (f : Client → Client) (clients : List Client) (i : ℕ) (c : Client)
    → get_elem? clients i ≡ some c
    → get_elem? (map f clients) i ≡ some (f c)
get_elem?-reaped f [] i c e = cc
get_elem?-reaped f (d ∷ clients) zero c e = ground arith
get_elem?-reaped f (d ∷ clients) (suc i) c e = get_elem?-reaped f clients i c e

-- Slots that no client uses and clients attached to a stream wait as long as they like.
abbrev pub may_wait : Kind → Bool
may_wait empty = true
may_wait reading = false
may_wait responding = false
may_wait attached_stdout = true
may_wait attached_stderr = true
may_wait attaching_stdin = false
may_wait attached_stdin = true

-- What reaping makes of one client: it is closed when it may not wait and said its last more than two
-- minutes ago; it stays when it may wait, has no last time, or said its last within two minutes.
abbrev pub Reaps : ℕ → Client → Client → Type 0
Reaps now c left =
    ((may_wait c.kind ≡ false)
      × (c.last_activity ≢ 0)
      × (c.last_activity + 120_000 < now)
      × (left ≡ empty_client))
    ⊎ (((may_wait c.kind ≡ true) ⊎ ((c.last_activity ≡ 0) ⊎ (now ≤ c.last_activity + 120_000)))
        × (left ≡ c))

may_wait-kinds : (kind : Kind) → (is_empty kind || is_attached kind) ≡ may_wait kind
unfolding is_empty is_attached
may_wait-kinds empty = refl
may_wait-kinds reading = refl
may_wait-kinds responding = refl
may_wait-kinds attached_stdout = refl
may_wait-kinds attached_stderr = refl
may_wait-kinds attaching_stdin = refl
may_wait-kinds attached_stdin = refl

idle-Reaps :
    (now : ℕ) (c : Client)
    → c.last_activity ≤ now
    → now < 2 ^ 64
    → Reaps now c (if is_idle now c then empty_client else c)
unfolding is_idle
idle-Reaps now c past small = elim (Bool-cases (is_idle now c)) [
  | inl idle ↦
      let kinds = may_wait-kinds c.kind in
      rw idle (inl (ground arith, ground arith, ground arith, refl))
  | inr busy ↦ let kinds = may_wait-kinds c.kind in rw busy (inr (ground arith, refl))
]

-- `reap_idle_control_clients` on a clock of 64 bits that has not gone back behind the last activity of
-- the client at an index: that client is closed exactly if it is reading, responding or attaching, has
-- a last activity, and this is more than 120,000 milliseconds ago; and nothing is logged.
pub reap_idle_control_clients-Reaps :
    (now : ℕ) (clients : List Client) (log : Log) (i : ℕ) (c : Client)
    → get_elem? clients i ≡ some c
    → c.last_activity ≤ now
    → now < 2 ^ 64
    → let (kept, log') = reap_idle_control_clients now clients log in
      (left : Client) × (get_elem? kept i ≡ some left) × Reaps now c left × (log' ≡ log)
unfolding reap_idle_control_clients
reap_idle_control_clients-Reaps now clients log i c e past small = elim (Bool-cases (now == 0)) [
  | inl stopped ↦ rw stopped (c, e, inr (inr (inr (ground arith)), refl), refl)
  | inr running ↦
      rw (running, reap_loop-reaps now clients log)
        (
          _,
          get_elem?-reaped (λ c. if is_idle now c then empty_client else c) clients i c e,
          idle-Reaps now c past small,
          refl,
        )
]

-- What `broadcast_attached_output` makes of one slot: clients of another kind stay; of this kind the
-- bytes are queued behind the ones that wait, or the client is closed, for want of room or memory.
unfoldable pub Hears : (ℕ → Bool) → Kind → Bytes → Client → Client → Type 0
Hears alloc kind buffer c left =
    if same_kind kind c.kind
    then (Queued alloc c buffer (left, true)
        ⊎ ((left ≡ empty_client) × Queued alloc c buffer (c, false)))
    else (left ≡ c)

abbrev pub output_kind : Bool → Kind
output_kind to_stdout = if to_stdout then attached_stdout else attached_stderr

module _ (alloc : ℕ → Bool) (kind : Kind) (buffer : Bytes) where
  settled-Hears :
      (c left : Client) (done : Bool) (log : Log)
      → Queued alloc c buffer (left, done)
      → let after : Client × Log = if done then (left, log) else close_control_client left log in
        Queued alloc c buffer (after.0, true)
        ⊎ ((after.0 ≡ empty_client) × Queued alloc c buffer (c, false))
  unfolding close_control_client Queued
  settled-Hears c left true log h = inl h
  settled-Hears c left false log h = inr (refl, (refl, h.1))

  broadcast_one-Hears :
      (c : Client) (log : Log)
      → IsClient c
      → Hears alloc kind buffer c (broadcast_one alloc kind buffer c log).0
  unfolding broadcast_one Hears
  broadcast_one-Hears c log v = elim (Bool-cases (same_kind kind c.kind)) [
    | inl same ↦
        let left = enqueue_response alloc c buffer in
        rw same (settled-Hears c left.0 left.1 log (enqueue_response-Queued alloc c buffer v))
    | inr other ↦ rw other refl
  ]

  broadcast_loop-Hears :
      (clients : List Client) (log : Log) (i : ℕ) (c : Client)
      → All IsClient clients
      → get_elem? clients i ≡ some c
      → (left : Client) × (get_elem? (broadcast_loop alloc kind buffer clients log).0 i ≡ some left)
        × Hears alloc kind buffer c left
  unfolding broadcast_loop
  broadcast_loop-Hears [] log i c v e = cc
  broadcast_loop-Hears (d ∷ clients) log zero c v e =
      let same : d ≡ c = cc in
      subst
        (λ c.
          (left : Client) × (some (broadcast_one alloc kind buffer d log).0 ≡ some left)
          × Hears alloc kind buffer c left)
        same ((broadcast_one alloc kind buffer d log).0, refl, broadcast_one-Hears d log v.0)
  broadcast_loop-Hears (d ∷ clients) log (suc i) c v e =
      broadcast_loop-Hears clients (broadcast_one alloc kind buffer d log).1 i c v.1 e

-- `broadcast_attached_output` on a table of clients in order: at each index, the client hears the
-- output if it is attached to that stream, or is closed where that fails, and stays as it is if not.
pub broadcast_attached_output-Hears :
    (alloc : ℕ → Bool) (to_stdout : Bool) (buffer : Bytes) (clients : List Client) (log : Log)
    (i : ℕ) (c : Client)
    → All IsClient clients
    → get_elem? clients i ≡ some c
    → (left : Client) × (get_elem?
          (broadcast_attached_output alloc to_stdout buffer clients log).0
          i
        ≡ some left)
      × Hears alloc (output_kind to_stdout) buffer c left
unfolding broadcast_attached_output
broadcast_attached_output-Hears alloc to_stdout buffer clients log i c v e =
    broadcast_loop-Hears alloc (output_kind to_stdout) buffer clients log i c v e
