-- ===== src/Tcp/Calls.antt =====
-- The calls of `TcpTransport` that send, in src/impl/tcptransport.cpp.
use mathlib.Core.Path.{subst}
use websocket_client.Common.{
  ℕ, ◌≡◌, refl, ap, ap₂, sym, ◌∙◌, true, false, not, Option, none, some, List, [], ◌∷◌, ◌++◌,
  append_assoc, append-nil, length, ◌⊎◌, inl, inr, Bool-cases,
}
use websocket_client.Transport.{State, state_eq}
use websocket_client.Tcp.{
  SendReply, Tcp, Outcome, done, threw, whole, rest, broke, try_send_message, try_send_queue,
  enqueue, outgoing, send,
}
use websocket_client.Tcp.Flow.{
  concat, stream, IsSentPrefix, Streams, SentFrom, try_send_loop-SentFrom,
  try_send_queue_from-Streams, update-wire, update-queue, Sent-cases,
}

concat-append : (xs : List (List ℕ)) (m : List ℕ) → concat (xs ++ (m ∷ [])) ≡ concat xs ++ m
concat-append [] m = append-nil m
concat-append (x ∷ xs) m =
    ap (λ t. x ++ t) (concat-append xs m) ∙ sym (append_assoc x (concat xs) m)

stream-enqueue : (m : List ℕ) (w : Tcp) → stream (enqueue m w) ≡ stream w ++ m
unfolding enqueue
stream-enqueue m w =
    let pushed = record w { queue = w.queue ++ (m ∷ []) } in
    ap₂ (λ x q. x ++ concat q) (update-wire 0 (length m) pushed) (update-queue 0 (length m) pushed)
    ∙ ap (λ t. w.wire ++ t) (concat-append w.queue m)
    ∙ sym (append_assoc w.wire (concat w.queue) m)

pub Outcome-cases :
    (o : Outcome)
    → ((w : Tcp) × (o ≡ done true w))
      ⊎ (((w : Tcp) × (o ≡ done false w)) ⊎ ((w : Tcp) × (o ≡ threw w)))
Outcome-cases (done true w) = inl (w, refl)
Outcome-cases (done false w) = inr (inl (w, refl))
Outcome-cases (threw w) = inr (inr (w, refl))

try_send_queue-Streams :
    (socket : ℕ → SendReply) (w : Tcp) → Streams (stream w) (try_send_queue socket w)
unfolding try_send_queue
try_send_queue-Streams socket w = try_send_queue_from-Streams socket w.queue w refl

-- A prefix stays one when more bytes are to follow.
IsSentPrefix-append :
    (bytes more : List ℕ) (w : Tcp) → IsSentPrefix bytes w → IsSentPrefix (bytes ++ more) w
IsSentPrefix-append bytes more w (left, e) =
    (left ++ more, sym (append_assoc w.wire left more) ∙ ap (λ t. t ++ more) e)

outgoing-Streams :
    (socket : ℕ → SendReply) (m : List ℕ) (w : Tcp) → Streams (stream w ++ m) (outgoing socket m w)
unfolding outgoing try_send_message
outgoing-Streams socket m w =
    let flushed = try_send_queue-Streams socket w in
    elim (Outcome-cases (try_send_queue socket w)) [
      | inr (inr (w1, r)) ↦
          let facts : Streams (stream w) (threw w1) = rw r at flushed in
          rw (outgoing, r) (IsSentPrefix-append (stream w) m w1 facts)
      | inr (inl (w1, r)) ↦
          let facts : Streams (stream w) (done false w1) = rw r at flushed in
          rw (outgoing, r) (stream-enqueue m w1 ∙ ap (λ t. t ++ m) facts)
      | inl (w1, r) ↦
          let facts : Streams (stream w) (done true w1) = rw r at flushed in
          let on_wire : w1.wire ≡ stream w =
            sym (append-nil w1.wire) ∙ ap (λ q. w1.wire ++ concat q) (sym facts.1) ∙ facts.0 in
          let sent = try_send_loop-SentFrom socket (length m) m w1 in
          elim (Sent-cases (try_send_message socket m w1)) [
            | inl (w2, q) ↦
                let all : SentFrom (w1.wire ++ m) w1.queue (whole w2) = rw q at sent in
                let empty : w2.queue ≡ [] = all.1 ∙ facts.1 in
                rw (outgoing, r, q)
                  (
                    ap (λ p. w2.wire ++ concat p) empty
                        ∙ append-nil w2.wire
                        ∙ all.0
                        ∙ ap (λ t. t ++ m) on_wire,
                    empty,
                  )
            | inr (inl (left, w2, q)) ↦
                let part : SentFrom (w1.wire ++ m) w1.queue (rest left w2) = rw q at sent in
                let empty : w2.queue ≡ [] = part.1 ∙ facts.1 in
                rw (outgoing, r, q)
                  (stream-enqueue left w2
                    ∙ ap (λ t. t ++ left) (ap (λ p. w2.wire ++ concat p) empty ∙ append-nil w2.wire)
                    ∙ part.0
                    ∙ ap (λ t. t ++ m) on_wire)
            | inr (inr (w2, q)) ↦
                let (left, part) : SentFrom (w1.wire ++ m) w1.queue (broke w2) = rw q at sent in
                rw (outgoing, r, q) (left, part ∙ ap (λ t. t ++ m) on_wire)
          ]
    ]

-- The bytes of what the upper transport sends; a null pointer has none.
abbrev pub bytes_of : Option (List ℕ) → List ℕ
bytes_of none = []
bytes_of (some m) = m

send-Streams :
    (socket : ℕ → SendReply) (message : Option (List ℕ)) (w : Tcp)
    → Streams (stream w ++ bytes_of message) (send socket message w)
unfolding send
send-Streams socket message w = elim (Bool-cases (not (state_eq w.state State.connected))) [
  | inl closed ↦
      rw (send, closed)
        (
          concat w.queue ++ bytes_of message,
          sym (append_assoc w.wire (concat w.queue) (bytes_of message)),
        )
  | inr up ↦ rw (send, up) (go message)
]
  where
    flush : Streams (stream w ++ []) (try_send_queue socket w)
    flush =
        subst (λ t. Streams t (try_send_queue socket w)) (sym (append-nil (stream w)))
          (try_send_queue-Streams socket w)

    go :
        (m : Option (List ℕ))
        → Streams (stream w ++ bytes_of m) (elim m [
          | none ↦ try_send_queue socket w
          | some [] ↦ try_send_queue socket w
          | some (b ∷ bytes) ↦ outgoing socket (b ∷ bytes) w
        ])
    go none = flush
    go (some []) = flush
    go (some (b ∷ bytes)) = outgoing-Streams socket (b ∷ bytes) w

-- Calls of `send` one after the other, up to one that throws.
abbrev pub send_each : (ℕ → SendReply) → List (Option (List ℕ)) → Tcp → Outcome
send_each socket [] w = done false w
send_each socket (message ∷ messages) w = elim (send socket message w) [
  | done all w1 ↦ send_each socket messages w1
  | threw w1 ↦ threw w1
]

abbrev pub all_bytes : List (Option (List ℕ)) → List ℕ
all_bytes [] = []
all_bytes (message ∷ messages) = bytes_of message ++ all_bytes messages

-- Whatever the socket answers to each call, after any number of calls of send, the bytes on the
-- wire and in the queue are those of before and all the messages in order, with nothing lost,
-- repeated or swapped; and when a call throws, the bytes on the wire are the first ones of them.
pub send_each-Streams :
    (socket : ℕ → SendReply) (messages : List (Option (List ℕ))) (w : Tcp)
    → Streams (stream w ++ all_bytes messages) (send_each socket messages w)
send_each-Streams socket [] w = sym (append-nil (stream w))
send_each-Streams socket (m ∷ ms) w =
    let sent = send-Streams socket m w in
    let go : (w1 : Tcp)
        → stream w1 ≡ stream w ++ bytes_of m
        → Streams (stream w ++ (bytes_of m ++ all_bytes ms)) (send_each socket ms w1) =
      λ w1 e.
        subst (λ t. Streams t (send_each socket ms w1))
          (ap (λ t. t ++ all_bytes ms) e ∙ append_assoc (stream w) (bytes_of m) (all_bytes ms))
          (send_each-Streams socket ms w1) in
    elim (Outcome-cases (send socket m w)) [
      | inl (w1, r) ↦
          let facts : Streams (stream w ++ bytes_of m) (done true w1) = rw r at sent in
          rw (send_each, r) (go w1 facts.0)
      | inr (inl (w1, r)) ↦
          let facts : Streams (stream w ++ bytes_of m) (done false w1) = rw r at sent in
          rw (send_each, r) (go w1 facts)
      | inr (inr (w1, r)) ↦
          let facts : Streams (stream w ++ bytes_of m) (threw w1) = rw r at sent in
          rw (send_each, r)
            (subst (λ t. IsSentPrefix t w1) (append_assoc (stream w) (bytes_of m) (all_bytes ms))
              (IsSentPrefix-append (stream w ++ bytes_of m) (all_bytes ms) w1 facts))
    ]
