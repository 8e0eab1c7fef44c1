-- ===== src/Tls/Empty.antt =====
-- Empty messages in `ReadCallback` of src/impl/tlstransport.cpp, which are passed on.
use websocket_client.Common.{
  ℕ, ◌≡◌, ap, ◌∙◌, arith, min, false, none, some, List, [], ◌∷◌, ltb, length, take, All, drop-nil,
}
use websocket_client.Tls.{Tls, received, emit}
use websocket_client.Tls.Callbacks.{
  bytes, next_message, drop_read, refill, hand_over, read_callback,
}

next_message-empty :
    (queue : List (List ℕ)) (w : Tls)
    → All (λ m. m ≡ []) queue
    → w.incoming_message ≡ some []
    → (next_message queue w).incoming_message ≡ some []
next_message-empty [] w h e = e
next_message-empty (m ∷ queue) w h e =
    let none_here : ltb 0 (length m) ≡ false = ap (λ x. ltb 0 (length x)) h.0 in
    simp none_here (
      next_message-empty queue (emit (received m) (record w { incoming_message = some m })) h.1
        (ap some h.0))

min_zero : (n : ℕ) → min n 0 ≡ 0
min_zero n = omega arith

hand_over-empty : (n : ℕ) (w : Tls) → w.incoming_message ≡ some [] → (hand_over n w).0 ≡ bytes []
unfolding hand_over
hand_over-empty n w e =
    simp (hand_over, e)
      (ap (λ r. bytes (take (min n (length r)) r)) (drop-nil w.position)
        ∙ ap (λ k. bytes (take k [])) (min_zero n))

-- Nothing is at hand, and the messages in the queue are empty.
pub read_callback-empty :
    (n : ℕ) (message : List ℕ) (queue : List (List ℕ)) (w : Tls)
    → w.incoming_message ≡ none
    → w.incoming_queue ≡ message ∷ queue
    → All (λ m. m ≡ []) (message ∷ queue)
    → (read_callback n w).0 ≡ bytes []
unfolding drop_read refill
read_callback-empty n message queue w e q h =
    let start = record w { position = 0 } in
    let dropped : drop_read w ≡ w = simp (drop_read, e) in
    let refilled : refill w ≡ next_message (message ∷ queue) start = simp (refill, e, q) in
    let none_here : ltb 0 (length message) ≡ false = ap (λ x. ltb 0 (length x)) h.0 in
    let all_passed : (next_message (message ∷ queue) start).incoming_message ≡ some [] =
      simp none_here (next_message-empty queue _ h.1 (ap some h.0)) in
    hand_over-empty n (refill (drop_read w)) (
      ap (λ v. (refill v).incoming_message) dropped
      ∙ ap (λ (v : Tls). v.incoming_message) refilled
      ∙ all_passed)
