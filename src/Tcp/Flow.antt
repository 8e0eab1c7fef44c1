-- ===== src/Tcp/Flow.antt =====
-- The bytes through the queue and the socket of `TcpTransport` in src/impl/tcptransport.cpp.
use mathlib.Core.Path.{subst}
use websocket_client.Common.{
  ℕ, zero, suc, ◌+◌, ◌≡◌, refl, ap, ap₂, sym, ◌∙◌, arith, true, false, List, [], ◌∷◌, ◌++◌,
  append_assoc, append-nil, length, take, drop, take-append-drop, ◌⊎◌, inl, inr,
}
use websocket_client.Tcp.{
  SendReply, wrote, would_block, failed, Tcp, Outcome, done, threw, Sent, whole, rest, broke,
  update_buffered_amount, try_send_loop, try_send_message, try_send_queue_from,
}

abbrev pub concat : List (List ℕ) → List ℕ
concat [] = []
concat (m ∷ ms) = m ++ concat ms

-- All bytes that were accepted: those on the wire, and behind them those in the queue.
abbrev pub stream : Tcp → List ℕ
stream w = w.wire ++ concat w.queue

-- The bytes so far on the wire are the first of the given ones.
abbrev pub IsSentPrefix : List ℕ → Tcp → Type 0
IsSentPrefix bytes w = (left : List ℕ) × (w.wire ++ left ≡ bytes)

-- What a call that was to get the given stream leaves: the whole stream, on the wire and in the
-- queue, if it returned, with an empty queue if it returned true; a part of it on the wire if it threw.
abbrev pub Streams : List ℕ → Outcome → Type 0
Streams bytes (done true w) = (stream w ≡ bytes) × (w.queue ≡ [])
Streams bytes (done false w) = stream w ≡ bytes
Streams bytes (threw w) = IsSentPrefix bytes w

-- The same of one message; the queue is untouched.
abbrev pub SentFrom : List ℕ → List (List ℕ) → Sent → Type 0
SentFrom bytes queue (whole w) = (w.wire ≡ bytes) × (w.queue ≡ queue)
SentFrom bytes queue (rest left w) = (w.wire ++ left ≡ bytes) × (w.queue ≡ queue)
SentFrom bytes queue (broke w) = IsSentPrefix bytes w

pub try_send_loop-SentFrom :
    (socket : ℕ → SendReply) (fuel : ℕ) (message : List ℕ) (w : Tcp)
    → SentFrom (w.wire ++ message) w.queue (try_send_loop socket fuel message w)
unfolding try_send_loop
try_send_loop-SentFrom socket fuel [] w = (sym (append-nil w.wire), refl)
try_send_loop-SentFrom socket zero (b ∷ bytes) w = (refl, refl)
try_send_loop-SentFrom socket (suc fuel) (b ∷ bytes) w =
    let called = record w { calls = w.calls + 1 } in
    elim (socket w.calls)
      as (λ r. SentFrom (w.wire ++ (b ∷ bytes)) w.queue (elim r [
        | wrote n ↦
            try_send_loop socket fuel (drop n bytes)
              (record called { wire = w.wire ++ (b ∷ take n bytes) })
        | would_block ↦ rest (b ∷ bytes) called
        | failed ↦ broke called
      ])) [
        | wrote n ↦
            let w1 = record called { wire = w.wire ++ (b ∷ take n bytes) } in
            let same : w1.wire ++ drop n bytes ≡ w.wire ++ (b ∷ bytes) =
              append_assoc w.wire (b ∷ take n bytes) (drop n bytes)
              ∙ ap (λ t. w.wire ++ (b ∷ t)) (take-append-drop n bytes) in
            subst (λ t. SentFrom t w.queue (try_send_loop socket fuel (drop n bytes) w1)) same
              (try_send_loop-SentFrom socket fuel (drop n bytes) w1)
        | would_block ↦ (refl, refl)
        | failed ↦ (b ∷ bytes, refl)
      ]

pub update-wire : (r a : ℕ) (w : Tcp) → (update_buffered_amount r a w).wire ≡ w.wire
unfolding update_buffered_amount
update-wire r a w = ground arith

pub update-queue : (r a : ℕ) (w : Tcp) → (update_buffered_amount r a w).queue ≡ w.queue
unfolding update_buffered_amount
update-queue r a w = ground arith

pub Sent-cases :
    (s : Sent)
    → ((w : Tcp) × (s ≡ whole w))
      ⊎ (((left : List ℕ) × (w : Tcp) × (s ≡ rest left w)) ⊎ ((w : Tcp) × (s ≡ broke w)))
Sent-cases (whole w) = inl (w, refl)
Sent-cases (rest left w) = inr (inl (left, w, refl))
Sent-cases (broke w) = inr (inr (w, refl))

pub try_send_queue_from-Streams :
    (socket : ℕ → SendReply) (queue : List (List ℕ)) (w : Tcp)
    → w.queue ≡ queue
    → Streams (w.wire ++ concat queue) (try_send_queue_from socket queue w)
unfolding try_send_queue_from try_send_message
try_send_queue_from-Streams socket [] w e = (ap (λ q. w.wire ++ concat q) e, e)
try_send_queue_from-Streams socket (m ∷ queue) w e =
    let split : (w.wire ++ m) ++ concat queue ≡ w.wire ++ (m ++ concat queue) =
      append_assoc w.wire m (concat queue) in
    let sent = try_send_loop-SentFrom socket (length m) m w in
    elim (Sent-cases (try_send_message socket m w)) [
      | inl (w1, r) ↦
          let facts : SentFrom (w.wire ++ m) w.queue (whole w1) = rw r at sent in
          let w2 = update_buffered_amount (length m) 0 (record w1 { queue = queue }) in
          let next =
            try_send_queue_from-Streams socket queue w2
              (update-queue (length m) 0 (record w1 { queue = queue })) in
          let on_wire : w2.wire ≡ w.wire ++ m =
            update-wire (length m) 0 (record w1 { queue = queue }) ∙ facts.0 in
          rw (try_send_queue_from, r)
            (subst (λ t. Streams t (try_send_queue_from socket queue w2))
              (ap (λ t. t ++ concat queue) on_wire ∙ split) next)
      | inr (inl (left, w1, r)) ↦
          let facts : SentFrom (w.wire ++ m) w.queue (rest left w1) = rw r at sent in
          let kept = record w1 { queue = left ∷ queue } in
          rw (try_send_queue_from, r)
            (ap₂ (λ x q. x ++ concat q) (update-wire (length m) (length left) kept)
                (update-queue (length m) (length left) kept)
              ∙ sym (append_assoc w1.wire left (concat queue))
              ∙ ap (λ t. t ++ concat queue) facts.0
              ∙ split)
      | inr (inr (w1, r)) ↦
          let (left, facts) : SentFrom (w.wire ++ m) w.queue (broke w1) = rw r at sent in
          rw (try_send_queue_from, r)
            (
              left ++ concat queue,
              sym (append_assoc w1.wire left (concat queue))
                  ∙ ap (λ t. t ++ concat queue) facts
                  ∙ split,
            )
    ]
