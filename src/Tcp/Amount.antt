-- ===== src/Tcp/Amount.antt =====
-- The buffered amount of `TcpTransport` in src/impl/tcptransport.cpp.
use websocket_client.Common.{
  ℕ, zero, suc, ◌+◌, ◌-◌, ◌≡◌, refl, ap, sym, ◌∙◌, arith, not, Option, none, some, List, [], ◌∷◌,
  ◌++◌, length, length-append, take, drop, inl, inr, Bool-cases,
}
use websocket_client.Transport.{State, state_eq}
use websocket_client.Tcp.{
  SendReply, wrote, would_block, failed, Tcp, Outcome, done, threw, Sent, whole, rest, broke,
  update_buffered_amount, try_send_loop, try_send_message, try_send_queue_from, try_send_queue,
  enqueue, outgoing, send, process, PollEvent, error, timeout, out_event, other, in_event, Ending,
  change_state, disconnect, receive_all, incoming,
}
use websocket_client.Tcp.Flow.{concat, Sent-cases}
use websocket_client.Tcp.Calls.{Outcome-cases}

-- The buffered amount is the number of bytes in the queue.
abbrev pub IsCounted : Tcp → Type 0
IsCounted w = w.buffered_amount ≡ length (concat w.queue)

abbrev pub Counts : Outcome → Type 0
Counts (done b w) = IsCounted w
Counts (threw w) = IsCounted w

abbrev Kept : ℕ → List (List ℕ) → Tcp → Type 0
Kept amount queue w = (w.buffered_amount ≡ amount) × (w.queue ≡ queue)

-- Sending a message itself changes neither the amount nor the queue.
abbrev KeptBy : ℕ → List (List ℕ) → Sent → Type 0
KeptBy amount queue (whole w) = Kept amount queue w
KeptBy amount queue (rest left w) = Kept amount queue w
KeptBy amount queue (broke w) = Kept amount queue w

try_send_loop-KeptBy :
    (socket : ℕ → SendReply) (fuel : ℕ) (message : List ℕ) (w : Tcp)
    → KeptBy w.buffered_amount w.queue (try_send_loop socket fuel message w)
unfolding try_send_loop
try_send_loop-KeptBy socket fuel [] w = (refl, refl)
try_send_loop-KeptBy socket zero (b ∷ bytes) w = (refl, refl)
try_send_loop-KeptBy socket (suc fuel) (b ∷ bytes) w =
    let called = record w { calls = w.calls + 1 } in
    elim (socket w.calls)
      as (λ r. KeptBy w.buffered_amount w.queue (elim r [
        | wrote n ↦
            try_send_loop socket fuel (drop n bytes)
              (record called { wire = w.wire ++ (b ∷ take n bytes) })
        | would_block ↦ rest (b ∷ bytes) called
        | failed ↦ broke called
      ])) [
        | wrote n ↦
            try_send_loop-KeptBy socket fuel (drop n bytes)
              (record called { wire = w.wire ++ (b ∷ take n bytes) })
        | would_block ↦ (refl, refl)
        | failed ↦ (refl, refl)
      ]

update-IsCounted :
    (r a : ℕ) (w : Tcp)
    → w.buffered_amount + a - r ≡ length (concat w.queue)
    → IsCounted (update_buffered_amount r a w)
unfolding update_buffered_amount
update-IsCounted r a w h = ground arith

update-queue_same : (r a : ℕ) (w : Tcp) → (update_buffered_amount r a w).queue ≡ w.queue
unfolding update_buffered_amount
update-queue_same r a w = ground arith

try_send_queue_from-Counts :
    (socket : ℕ → SendReply) (queue : List (List ℕ)) (w : Tcp)
    → w.queue ≡ queue
    → IsCounted w
    → Counts (try_send_queue_from socket queue w)
unfolding try_send_queue_from try_send_message
try_send_queue_from-Counts socket [] w e h = h
try_send_queue_from-Counts socket (m ∷ queue) w e h =
    let kept = try_send_loop-KeptBy socket (length m) m w in
    let before : w.buffered_amount ≡ length m + length (concat queue) =
      h ∙ ap (λ q. length (concat q)) e ∙ length-append m (concat queue) in
    elim (Sent-cases (try_send_message socket m w)) [
      | inl (w1, r) ↦
          let facts : KeptBy w.buffered_amount w.queue (whole w1) = rw r at kept in
          let left = record w1 { queue = queue } in
          rw (try_send_queue_from, r)
            (try_send_queue_from-Counts socket queue (update_buffered_amount (length m) 0 left)
              (update-queue_same (length m) 0 left)
              (update-IsCounted (length m) 0 left (omega (arith, facts.0, before))))
      | inr (inl (part, w1, r)) ↦
          let facts : KeptBy w.buffered_amount w.queue (rest part w1) = rw r at kept in
          rw (try_send_queue_from, r)
            (update-IsCounted (length m) (length part) (record w1 { queue = part ∷ queue })
              (omega (arith, facts.0, before, length-append part (concat queue))))
      | inr (inr (w1, r)) ↦
          let facts : KeptBy w.buffered_amount w.queue (broke w1) = rw r at kept in
          rw (try_send_queue_from, r) (facts.0 ∙ h ∙ ap (λ q. length (concat q)) (sym facts.1))
    ]

try_send_queue-Counts :
    (socket : ℕ → SendReply) (w : Tcp) → IsCounted w → Counts (try_send_queue socket w)
unfolding try_send_queue
try_send_queue-Counts socket w h = try_send_queue_from-Counts socket w.queue w refl h

length-concat :
    (xs : List (List ℕ)) (m : List ℕ)
    → length (concat (xs ++ (m ∷ []))) ≡ length (concat xs) + length m
length-concat [] m = omega (arith, length-append m [])
length-concat (x ∷ xs) m = omega (
  arith,
  length-append x (concat (xs ++ (m ∷ []))),
  length-append x (concat xs),
  length-concat xs m,
)

enqueue-IsCounted : (m : List ℕ) (w : Tcp) → IsCounted w → IsCounted (enqueue m w)
unfolding enqueue
enqueue-IsCounted m w h =
    update-IsCounted 0 (length m) (record w { queue = w.queue ++ (m ∷ []) })
      (omega (arith, h, length-concat w.queue m))

outgoing-Counts :
    (socket : ℕ → SendReply) (m : List ℕ) (w : Tcp) → IsCounted w → Counts (outgoing socket m w)
unfolding outgoing try_send_message
outgoing-Counts socket m w h =
    let flushed = try_send_queue-Counts socket w h in
    elim (Outcome-cases (try_send_queue socket w)) [
      | inr (inr (w1, r)) ↦ rw (outgoing, r) (rw r at flushed)
      | inr (inl (w1, r)) ↦ rw (outgoing, r) (enqueue-IsCounted m w1 (rw r at flushed))
      | inl (w1, r) ↦
          let counted : IsCounted w1 = rw r at flushed in
          let kept = try_send_loop-KeptBy socket (length m) m w1 in
          let same : (w2 : Tcp) → Kept w1.buffered_amount w1.queue w2 → IsCounted w2 =
            λ w2 k. k.0 ∙ counted ∙ ap (λ q. length (concat q)) (sym k.1) in
          elim (Sent-cases (try_send_message socket m w1)) [
            | inl (w2, q) ↦ rw (outgoing, r, q) (same w2 (rw q at kept))
            | inr (inl (left, w2, q)) ↦
                rw (outgoing, r, q) (enqueue-IsCounted left w2 (same w2 (rw q at kept)))
            | inr (inr (w2, q)) ↦ rw (outgoing, r, q) (same w2 (rw q at kept))
          ]
    ]

-- Where the buffered amount is the number of bytes in the queue, it is so after a call of send with any message, whether the call returns or throws.
pub send-Counts :
    (socket : ℕ → SendReply) (message : Option (List ℕ)) (w : Tcp)
    → IsCounted w
    → Counts (send socket message w)
unfolding send
send-Counts socket message w h = elim (Bool-cases (not (state_eq w.state State.connected))) [
  | inl closed ↦ rw (send, closed) h
  | inr up ↦ rw (send, up) (go message)
]
  where
    go :
        (m : Option (List ℕ))
        → Counts (elim m [
          | none ↦ try_send_queue socket w
          | some [] ↦ try_send_queue socket w
          | some (b ∷ bytes) ↦ outgoing socket (b ∷ bytes) w
        ])
    go none = try_send_queue-Counts socket w h
    go (some []) = try_send_queue-Counts socket w h
    go (some (b ∷ bytes)) = outgoing-Counts socket (b ∷ bytes) w h

receive_all-IsCounted :
    (chunks : List (List ℕ)) (w : Tcp) → IsCounted w → IsCounted (receive_all chunks w)
receive_all-IsCounted [] w h = h
receive_all-IsCounted (c ∷ chunks) w h = receive_all-IsCounted chunks (incoming c w) h

disconnect-IsCounted : (w : Tcp) → IsCounted w → IsCounted (disconnect w)
unfolding disconnect change_state
disconnect-IsCounted w h = ground arith

-- Where the buffered amount is the number of bytes in the queue, it is so after any event of the poll service.
pub process-IsCounted :
    (socket : ℕ → SendReply) (event : PollEvent) (w : Tcp)
    → IsCounted w
    → IsCounted (process socket event w)
unfolding process
process-IsCounted socket error w h = disconnect-IsCounted w h
process-IsCounted socket timeout w h = h
process-IsCounted socket other w h = h
process-IsCounted socket out_event w h =
    let flushed = try_send_queue-Counts socket w h in
    elim (Outcome-cases (try_send_queue socket w)) [
      | inr (inr (w1, r)) ↦ rw (process, r) (disconnect-IsCounted w1 (rw r at flushed))
      | inr (inl (w1, r)) ↦ rw (process, r) (rw r at flushed)
      | inl (w1, r) ↦ rw (process, r) (rw r at flushed)
    ]
process-IsCounted socket (in_event chunks Ending.no_more) w h = receive_all-IsCounted chunks w h
process-IsCounted socket (in_event chunks Ending.clean_close) w h =
    disconnect-IsCounted (receive_all chunks w) (receive_all-IsCounted chunks w h)
process-IsCounted socket (in_event chunks Ending.connection_lost) w h =
    disconnect-IsCounted (receive_all chunks w) (receive_all-IsCounted chunks w h)
