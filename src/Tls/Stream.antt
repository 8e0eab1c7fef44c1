-- ===== src/Tls/Stream.antt =====
-- What the TLS library reads through `ReadCallback` of src/impl/tlstransport.cpp, in the versions for
-- GnuTLS and Mbed TLS.
use websocket_client.Common.{
  ℕ, ◌≡◌, refl, sym, ap, ◌∙◌, arith, min, false, Option, none, some, List, [], ◌∷◌, ◌++◌,
  append-nil, append_assoc, if◌then◌else◌, ltb, leb, length, take, drop, Bool-cases, if-holds,
  Option-cases, inl, inr, take-append-drop, drop_of_le, drop-drop, drop-nil,
}
use websocket_client.Tls.{Tls, received, emit, running, enqueue_recv, incoming}
use websocket_client.Tls.Callbacks.{
  ReadReply, bytes, again, closed, next_message, drop_read, refill, hand_over, read_callback,
}

abbrev pub concat : List (List ℕ) → List ℕ
concat [] = []
concat (m ∷ ms) = m ++ concat ms

-- What is left of a message at hand.
abbrev pub rest_at : Option (List ℕ) → ℕ → List ℕ
rest_at none position = []
rest_at (some message) position = drop position message

abbrev pub rest_of : Tls → List ℕ
rest_of w = rest_at w.incoming_message w.position

-- The bytes that came in and were not read.
abbrev pub unread : Tls → List ℕ
unread w = rest_of w ++ concat w.incoming_queue

abbrev pub bytes_of : ReadReply → List ℕ
bytes_of (bytes b) = b
bytes_of again = []
bytes_of closed = []

drop_read-unread : (w : Tls) → unread (drop_read w) ≡ unread w
unfolding drop_read
drop_read-unread w = elim (Option-cases w.incoming_message) [
  | inl e ↦ simp (drop_read, e)
  | inr (m, e) ↦ elim (Bool-cases (leb (length m) w.position)) [
    | inl over ↦
        let nothing : drop w.position m ≡ [] = drop_of_le w.position m (ground (arith, over)) in
        simp (drop_read, e, over) (sym (ap (λ r. r ++ concat w.incoming_queue) nothing))
    | inr more ↦ simp (drop_read, e, more)
  ]
]

-- No message is lost in the loop.
next_message-unread :
    (queue : List (List ℕ)) (w : Tls)
    → w.position ≡ 0
    → rest_of w ≡ []
    → unread (next_message queue w) ≡ concat queue
next_message-unread [] w p e = append-nil (rest_of w) ∙ e
next_message-unread (m ∷ queue) w p e = elim (Bool-cases (ltb 0 (length m))) [
  | inl some_bytes ↦ simp some_bytes (ap (λ n. drop n m ++ concat queue) p)
  | inr empty ↦
      let none_left : m ≡ [] = ground (arith, empty) in
      let still : drop w.position m ≡ [] =
        ap (λ x. drop w.position x) none_left ∙ drop-nil w.position in
      simp empty (
        next_message-unread queue (emit (received m) (record w { incoming_message = some m })) p
          still
        ∙ ap (λ x. x ++ concat queue) (sym none_left))
]

refill-unread : (w : Tls) → unread (refill w) ≡ unread w
unfolding refill
refill-unread w = elim (Option-cases w.incoming_message) [
  | inl e ↦
      simp (refill, e)
        (next_message-unread w.incoming_queue (record w { incoming_message = none; position = 0 })
          refl refl)
  | inr (m, e) ↦ simp (refill, e)
]

hand_over-unread :
    (n : ℕ) (w : Tls) → let (reply, w') = hand_over n w in bytes_of reply ++ unread w' ≡ unread w
unfolding hand_over
hand_over-unread n w = elim (Option-cases w.incoming_message) [
  | inl e ↦ elim (Bool-cases (running w)) [
    | inl r ↦ simp (hand_over, e, r)
    | inr r ↦ simp (hand_over, e, r)
  ]
  | inr (m, e) ↦
      let rest = drop w.position m in
      let k = min n (length rest) in
      simp (hand_over, e)
        (ap (λ r. take k rest ++ (r ++ concat w.incoming_queue)) (sym (drop-drop w.position k m))
          ∙ sym (append_assoc (take k rest) (drop k rest) (concat w.incoming_queue))
          ∙ ap (λ r. r ++ concat w.incoming_queue) (take-append-drop k rest))
]

read_callback-unread :
    (n : ℕ) (w : Tls)
    → let (reply, w') = read_callback n w in bytes_of reply ++ unread w' ≡ unread w
read_callback-unread n w =
    hand_over-unread n (refill (drop_read w)) ∙ refill-unread (drop_read w) ∙ drop_read-unread w

-- The library reads so many bytes at most, or a message comes in from the lower transport.
pub data Op : Type 0 where
  reading : ℕ → Op
  arriving : List ℕ → Op

-- All bytes that were read, and the transport after it.
abbrev pub run : List Op → Tls → List ℕ × Tls
run [] w = ([], w)
run (reading n ∷ ops) w =
    let (reply, w1) = read_callback n w in
    let (more, w2) = run ops w1 in (bytes_of reply ++ more, w2)
run (arriving message ∷ ops) w = run ops (incoming (some message) w)

-- The bytes that came in.
abbrev pub arrived : List Op → List ℕ
arrived [] = []
arrived (reading n ∷ ops) = arrived ops
arrived (arriving message ∷ ops) = message ++ arrived ops

concat-append : (xs ys : List (List ℕ)) → concat (xs ++ ys) ≡ concat xs ++ concat ys
concat-append [] ys = refl
concat-append (x ∷ xs) ys = simp (concat-append xs ys, append_assoc)

enqueue_recv-unread :
    (w : Tls) → (unread (enqueue_recv w) ≡ unread w) × ((enqueue_recv w).stopping ≡ w.stopping)
unfolding enqueue_recv
enqueue_recv-unread w =
    if-holds (λ v. (unread v ≡ unread w) × (v.stopping ≡ w.stopping)) (ltb 0 w.pending) _ _
      (refl, refl) (refl, refl)

incoming-unread :
    (message : List ℕ) (w : Tls)
    → w.stopping ≡ false
    → (unread (incoming (some message) w) ≡ unread w ++ message)
      × ((incoming (some message) w).stopping ≡ false)
unfolding incoming
incoming-unread message w s =
    let pushed = record w { incoming_queue = w.incoming_queue ++ (message ∷ []) } in
    let kept = enqueue_recv-unread pushed in
    let same : incoming (some message) w ≡ enqueue_recv pushed =
      ap (λ b. enqueue_recv (if b then w else pushed)) s in
    (
      ap unread same
          ∙ kept.0
          ∙ ap (λ t. rest_of w ++ t)
              (concat-append w.incoming_queue (message ∷ [])
                ∙ ap (λ t. concat w.incoming_queue ++ t) (append-nil message))
          ∙ sym (append_assoc (rest_of w) (concat w.incoming_queue) message),
      ap (λ (v : Tls). v.stopping) same ∙ kept.1 ∙ s,
    )

-- Reading never stops the queue.
next_message-stopping :
    (queue : List (List ℕ)) (w : Tls) → (next_message queue w).stopping ≡ w.stopping
next_message-stopping [] w = refl
next_message-stopping (m ∷ queue) w =
    if-holds (λ (v : Tls). v.stopping ≡ w.stopping) (ltb 0 (length m)) _ _ refl
      (next_message-stopping queue (emit (received m) (record w { incoming_message = some m })))

drop_read-stopping : (w : Tls) → (drop_read w).stopping ≡ w.stopping
unfolding drop_read
drop_read-stopping w = elim (Option-cases w.incoming_message) [
  | inl e ↦ simp (drop_read, e)
  | inr (m, e) ↦
      simp (drop_read, e)
        (if-holds (λ (v : Tls). v.stopping ≡ w.stopping) (leb (length m) w.position) _ _ refl refl)
]

refill-stopping : (w : Tls) → (refill w).stopping ≡ w.stopping
unfolding refill
refill-stopping w = elim (Option-cases w.incoming_message) [
  | inl e ↦ simp (refill, e) (next_message-stopping w.incoming_queue _)
  | inr (m, e) ↦ simp (refill, e)
]

hand_over-stopping : (n : ℕ) (w : Tls) → (hand_over n w).1.stopping ≡ w.stopping
unfolding hand_over
hand_over-stopping n w = elim (Option-cases w.incoming_message) [
  | inl e ↦
      simp (hand_over, e)
        (if-holds (λ (r : ReadReply × Tls). r.1.stopping ≡ w.stopping) (running w) _ _ refl refl)
  | inr (m, e) ↦ simp (hand_over, e)
]

read_callback-stopping : (n : ℕ) (w : Tls) → (read_callback n w).1.stopping ≡ w.stopping
read_callback-stopping n w =
    hand_over-stopping n (refill (drop_read w))
    ∙ refill-stopping (drop_read w)
    ∙ drop_read-stopping w

-- From a transport that is not stopped, after any reads of the library through ReadCallback, each
-- with any buffer size, and any messages of the lower transport, in any order: what was read and
-- what is not read are what was unread before and the messages' bytes, in order, with none lost or
-- repeated.
pub run-unread :
    (ops : List Op) (w : Tls)
    → w.stopping ≡ false
    → let (read, w') = run ops w in read ++ unread w' ≡ unread w ++ arrived ops
run-unread [] w s = sym (append-nil (unread w))
run-unread (reading n ∷ ops) w s =
    let (reply, w1) = read_callback n w in
    let rest = run-unread ops w1 (read_callback-stopping n w ∙ s) in
    append_assoc (bytes_of reply) (run ops w1).0 (unread (run ops w1).1)
    ∙ ap (λ t. bytes_of reply ++ t) rest
    ∙ sym (append_assoc (bytes_of reply) (unread w1) (arrived ops))
    ∙ ap (λ t. t ++ arrived ops) (read_callback-unread n w)
run-unread (arriving message ∷ ops) w s =
    run-unread ops (incoming (some message) w) (incoming-unread message w s).1
    ∙ ap (λ t. t ++ arrived ops) (incoming-unread message w s).0
    ∙ append_assoc (unread w) message (arrived ops)
