-- ===== src/Control/Sending.antt =====
-- Writing a response out: nothing is lost, repeated or reordered, and it ends.
use cubicle.Base.{
  ◌∷◌, ◌⊎◌, take-append-drop, drop, length, refl, false, ◌+◌, Bytes, List, zero, true, suc, ◌++◌, ℕ,
  leb→le, [], Bool, ◌≡◌, ◌≤◌, ◌∙◌, arith, take, ◌&&◌, inl, sym, Bool-cases, not, inr, ap,
  append_assoc, le→leb, length-drop, drop-all, drop-drop, Option-cases, append-nil,
}
use cubicle.Control.Client.{
  empty, reading, responding, attached_stdout, attached_stderr, attached_stdin, attaching_stdin,
  Client, Log, close_control_client, empty_client, Kind, detach_events, client_attached, stdin,
}
use cubicle.Control.Flush.{
  room, write_interrupted, write_would_block, write_failed, after_drain, WriteResult, unsent,
  is_drained, advanced, drained, flush_control_client_response,
}

drop-take : (n : ℕ) (s : Bytes) → drop (length (take n s)) s ≡ drop n s
drop-take zero s = refl
drop-take (suc n) [] = refl
drop-take (suc n) (c ∷ s) = drop-take n s

-- What a write leaves.
unsent-advanced : (n : ℕ) (c : Client) → unsent (advanced n c) ≡ drop n (unsent c)
unsent-advanced n c =
    drop-drop c.response_offset (length (take n (unsent c))) _ c.response refl
    ∙ drop-take n (unsent c)

sent-rest : (n : ℕ) (c : Client) → take n (unsent c) ++ unsent (advanced n c) ≡ unsent c
sent-rest n c = rw (unsent-advanced n c) (take-append-drop n (unsent c))

unsent-drained : (c : Client) → is_drained c ≡ true → unsent c ≡ []
unsent-drained c h = drop-all c.response_offset c.response (leb→le _ c.response_offset h)

-- Some call of `write` failed.
unfoldable pub fails : List WriteResult → Bool
fails [] = false
fails (write_failed ∷ results) = true
fails (_ ∷ results) = fails results

-- `bytes` waited; `sent` went out, and the others still wait, unless the connection was lost.
abbrev pub Sends : Bytes → Bool → Client × Log × Bytes → Type 0
Sends bytes lost (left, log, sent) =
    (rest : Bytes) × (bytes ≡ sent ++ rest)
    × ((rest ≡ unsent left) ⊎ ((left ≡ empty_client) × (lost ≡ true)))

after_drain-unsent :
    (now : ℕ) (kind : Kind) (c : Client) (log : Log)
    → unsent (after_drain now kind (drained c) log).0 ≡ []
unfolding after_drain close_control_client
after_drain-unsent now empty c log = refl
after_drain-unsent now reading c log = refl
after_drain-unsent now responding c log =
    elim (Bool-cases (c.framed_request && not c.close_after_response)) [
      | inl again ↦ rw again refl
      | inr last ↦ rw last refl
    ]
after_drain-unsent now attached_stdout c log = refl
after_drain-unsent now attached_stderr c log = refl
after_drain-unsent now attaching_stdin c log = refl
after_drain-unsent now attached_stdin c log = refl

drained-Sends :
    (now : ℕ) (c : Client) (log : Log) (lost : Bool)
    → is_drained c ≡ true
    → let (left, log') = after_drain now c.kind (drained c) log in
      Sends (unsent c) lost (left, log', [])
drained-Sends now c log lost h =
    ([], unsent-drained c h, inl (sym (after_drain-unsent now c.kind c log)))

-- `flush_control_client_response` sends the bytes that wait in their order: what the socket took and
-- what then still waits are together what waited before, unless a write failed, when the client is
-- closed.
pub flush_control_client_response-Sends :
    (now : ℕ) (results : List WriteResult) (c : Client) (log : Log)
    → Sends (unsent c) (fails results) (flush_control_client_response now results c log)
unfolding flush_control_client_response fails
flush_control_client_response-Sends now [] c log = elim (Bool-cases (is_drained c)) [
  | inl all_sent ↦ rw all_sent (drained-Sends now c log false all_sent)
  | inr some_left ↦ rw some_left (unsent c, refl, inl refl)
]
flush_control_client_response-Sends now (write_would_block ∷ results) c log =
    elim (Bool-cases (is_drained c)) [
      | inl all_sent ↦ rw all_sent (drained-Sends now c log (fails results) all_sent)
      | inr some_left ↦ rw some_left (unsent c, refl, inl refl)
    ]
flush_control_client_response-Sends now (write_interrupted ∷ results) c log =
    elim (Bool-cases (is_drained c)) [
      | inl all_sent ↦ rw all_sent (drained-Sends now c log (fails results) all_sent)
      | inr some_left ↦ rw some_left (flush_control_client_response-Sends now results c log)
    ]
flush_control_client_response-Sends now (write_failed ∷ results) c log =
    elim (Bool-cases (is_drained c)) [
      | inl all_sent ↦ rw all_sent (drained-Sends now c log true all_sent)
      | inr some_left ↦ rw some_left (unsent c, refl, inr (refl, refl))
    ]
flush_control_client_response-Sends now (room n ∷ results) c log =
    elim (Bool-cases (is_drained c)) [
      | inl all_sent ↦ rw all_sent (drained-Sends now c log (fails results) all_sent)
      | inr some_left ↦
          let later = flush_control_client_response-Sends now results (advanced n c) log in
          rw some_left (
            later.0,
            sym (sent-rest n c)
                ∙ ap (λ s. take n (unsent c) ++ s) later.1
                ∙ sym (append_assoc (take n (unsent c)) _ later.0),
            later.2,
          )
    ]

-- Every call takes some bytes or is interrupted.
unfoldable pub goes_on : List WriteResult → Bool
goes_on [] = true
goes_on (room n ∷ results) = goes_on results
goes_on (write_interrupted ∷ results) = goes_on results
goes_on (_ ∷ results) = false

-- How many bytes the calls take in all.
unfoldable pub total_room : List WriteResult → ℕ
total_room [] = 0
total_room (room n ∷ results) = n + total_room results
total_room (_ ∷ results) = total_room results

all_sent_at_once :
    (now : ℕ) (results : List WriteResult) (c : Client) (log : Log)
    → goes_on results ≡ true
    → length (unsent c) ≤ total_room results
    → let (left, log') = after_drain now c.kind (drained c) log in
      flush_control_client_response now results c log ≡ (left, log', unsent c)
unfolding flush_control_client_response goes_on total_room
all_sent_at_once now [] c log goes enough =
    let all_sent : is_drained c ≡ true =
      le→leb (length c.response) c.response_offset
        (omega (arith, length-drop c.response_offset c.response)) in
    rw (all_sent, unsent-drained c all_sent)
all_sent_at_once now (write_interrupted ∷ results) c log goes enough =
    elim (Bool-cases (is_drained c)) [
      | inl all_sent ↦ rw (all_sent, unsent-drained c all_sent)
      | inr some_left ↦ rw some_left (all_sent_at_once now results c log goes enough)
    ]
all_sent_at_once now (room n ∷ results) c log goes enough = elim (Bool-cases (is_drained c)) [
  | inl all_sent ↦ rw (all_sent, unsent-drained c all_sent)
  | inr some_left ↦
      let later = all_sent_at_once now results (advanced n c) log goes (
        omega
          (arith, ap (λ (s : Bytes). length s) (unsent-advanced n c), length-drop n (unsent c))) in
      rw some_left (
        ap (λ r. (r.0, r.1, take n (unsent c) ++ r.2)) later
        ∙ ap
            (λ s. (
              (after_drain now c.kind (drained c) log).0,
              (after_drain now c.kind (drained c) log).1,
              s,
            ))
            (sent-rest n c))
]
all_sent_at_once now (write_would_block ∷ results) c log goes enough = cc
all_sent_at_once now (write_failed ∷ results) c log goes enough = cc

-- What a client becomes whose response went out: one that was served closes, but after a framed request
-- that does not ask for it, it reads the next one; one that attaches to stdin is attached, which is
-- logged; others have an empty response.
unfoldable pub Finishes : ℕ → Kind → Client → Log → Client × Log → Type 0
Finishes now responding c log (left, log') =
    (((c.framed_request ≡ true)
        × (c.close_after_response ≡ false)
        × (left ≡ record c {
          kind = reading;
          request = [];
          framed_length = 0;
          response = [];
          response_offset = 0;
          close_after_response = false;
          last_activity = now;
        }))
      ⊎ (((c.framed_request ≡ false) ⊎ (c.close_after_response ≡ true)) × (left ≡ empty_client)))
    × (log' ≡ log)
Finishes now attaching_stdin c log (left, log') =
    (left ≡ record c { kind = attached_stdin; response = []; response_offset = 0 })
    × (log' ≡ log ++ client_attached stdin ∷ [])
Finishes now _ c log (left, log') =
    (left ≡ record c { response = []; response_offset = 0 }) × (log' ≡ log)

close_served :
    (c : Client) (log : Log)
    → c.kind ≡ responding
    → close_control_client c log ≡ (empty_client, log)
unfolding close_control_client detach_events
close_served c log h = elim (Option-cases c.fd) [
  | inl none_e ↦ rw none_e refl
  | inr (fd, e) ↦ rw (e, h, append-nil) refl
]

after_drain-Finishes :
    (now : ℕ) (kind : Kind) (c : Client) (log : Log)
    → c.kind ≡ kind
    → Finishes now kind c log (after_drain now kind (drained c) log)
unfolding after_drain Finishes
after_drain-Finishes now empty c log h = (refl, refl)
after_drain-Finishes now reading c log h = (refl, refl)
after_drain-Finishes now responding c log h =
    elim (Bool-cases (c.framed_request && not c.close_after_response)) [
      | inl again ↦ rw again (inl (ground arith, ground arith, refl), refl)
      | inr last ↦ rw (last, close_served (drained c) log h) (inr (ground arith, refl), refl)
    ]
after_drain-Finishes now attached_stdout c log h = (refl, refl)
after_drain-Finishes now attached_stderr c log h = (refl, refl)
after_drain-Finishes now attaching_stdin c log h = (refl, refl)
after_drain-Finishes now attached_stdin c log h = (refl, refl)

-- When the calls of `write` go on until the socket has room for all that waits, all of it goes out in
-- that one call. A client that was being served is closed without an event, unless its request was
-- framed and it need not close: it then reads with an empty request and response and the time of now.
-- A client that attaches to stdin is attached and logged. Any other one only has its response emptied.
pub flush_control_client_response_complete :
    (now : ℕ) (results : List WriteResult) (c : Client) (log : Log)
    → goes_on results ≡ true
    → length (unsent c) ≤ total_room results
    → let (left, log', sent) = flush_control_client_response now results c log in
      Finishes now c.kind c log (left, log') × (sent ≡ unsent c)
flush_control_client_response_complete now results c log goes enough =
    rw (all_sent_at_once now results c log goes enough)
      (after_drain-Finishes now c.kind c log refl, refl)
