-- ===== src/Capi/Echo.antt =====
-- `wscReceiveMessage` and `wscSendMessage` of src/capi.cpp together, and a buffer that is too small.
use native.Mathlib.Numerals.{unary_clauses}
use websocket_client.Common.{
  ℕ, ◌+◌, ◌^◌, ◌≤◌, ◌<◌, ◌≡◌, refl, ap, ◌∙◌, arith, true, Option, none, some, List, [], ◌∷◌, ◌++◌,
  length, All, take_of_le, lt→ltb, ◌≢◌,
}
use websocket_client.Common.Maps.{lookup}
use websocket_client.Message.{Variant}
use websocket_client.Capi.Int.{pos, neg, less, to_int-small, err_too_small}
use websocket_client.Capi.{Methods, Table}
use websocket_client.Capi.Buffers.{
  Received, receive_binary, receive_string, copy_binary, copy_string, message_to_send, until_zero,
}
use websocket_client.Capi.Receive.{received, after_receive, wsc_receive_message}
use websocket_client.Capi.Drain.{
  delivered, room, received-fits, receive_message-found, lookup-receive_message,
}

-- A message that a C caller can send: its text has no zero byte.
abbrev pub IsPlain : Variant → Type 0
IsPlain (Variant.binary b) = Unit
IsPlain (Variant.string b) = All (λ c. c ≢ 0) b

until_zero-terminated : (b : List ℕ) → All (λ c. c ≢ 0) b → until_zero (b ++ (0 ∷ [])) ≡ b
until_zero-terminated [] h = refl
until_zero-terminated (c ∷ b) h = ground (arith, h.0, until_zero-terminated b h.1)

-- A handle's answer, sent on.
pub resend : Received → Option Variant
resend r = elim r.size [ none ↦ none | some n ↦ message_to_send (some r.bytes) n ]

resend-delivered : (v : Variant) → IsPlain v → resend (delivered v) ≡ some v
unfolding message_to_send resend
resend-delivered (Variant.binary b) h =
    ap (λ x. some (Variant.binary x)) (take_of_le (length b) b (omega arith))
resend-delivered (Variant.string b) h =
    simp unary_clauses (ap (λ x. some (Variant.string x)) (until_zero-terminated b h))

-- What the caller finds behind its pointers where the buffer is too small.
abbrev pub refused : ℕ → Variant → Received
refused left (Variant.binary b) = record { code = err_too_small; size = some (pos 0); bytes = [] }
refused left (Variant.string b) = record {
  code = err_too_small;
  size = some (neg (left + 1));
  bytes = [];
}

module _ {S : Type 0} (m : Methods S) where
  -- The buffer and the size that wscReceiveMessage fills for a message that fits, given to
  -- wscSendMessage as they are, make it send the same message, a text being one without a zero
  -- byte, and the buffer one of less than 2 ^ 31 bytes.
  pub resend-receive_message :
      (id capacity left : ℕ) (s : S) (v : Variant) (t : Table S)
      → lookup id t.web_sockets ≡ some s
      → (m.peek s).0 ≡ some v
      → IsPlain v
      → room v ≤ capacity
      → capacity < 2 ^ 31
      → resend (wsc_receive_message m id true (some (pos capacity)) left t).0 ≡ some v
  resend-receive_message id capacity left s v t e front plain fits small =
      ap resend (
        receive_message-found m id s true (some (pos capacity)) left t e
        ∙ received-fits m s v capacity left front fits small)
      ∙ resend-delivered v plain

  received-refused :
      (s : S) (v : Variant) (capacity left : ℕ)
      → (m.peek s).0 ≡ some v
      → capacity < room v
      → room v < 2 ^ 31
      → received m (some s) true (some (pos capacity)) left ≡ refused left v
  unfolding received receive_binary receive_string copy_binary copy_string less
  received-refused s (Variant.binary b) capacity left e h bound =
      simp (received, e, less, to_int-small (length b) bound, lt→ltb capacity (length b) h)
  received-refused s (Variant.string b) capacity left e h bound =
      simp (received, e, less, to_int-small (length b + 1) bound, lt→ltb capacity (length b + 1) h)

  after_receive-refused :
      (left : ℕ) (v : Variant) (s : S) → after_receive m (refused left v) true s ≡ s
  unfolding after_receive
  after_receive-refused left (Variant.binary b) s = refl
  after_receive-refused left (Variant.string b) s = refl

  -- With a buffer that is too small for the first message, of less than 2 ^ 31 bytes, a text's zero
  -- byte included, wscReceiveMessage returns that code, writes nothing, receives nothing and leaves
  -- the object as peek made it; the size it reports is not the one needed but 0 for a binary
  -- message, and for a text one more than what is left of the string that was moved, negated.
  pub receive_message-refused :
      (id capacity left : ℕ) (s : S) (v : Variant) (t : Table S)
      → lookup id t.web_sockets ≡ some s
      → (m.peek s).0 ≡ some v
      → capacity < room v
      → room v < 2 ^ 31
      → let (r, t') = wsc_receive_message m id true (some (pos capacity)) left t in
        (r ≡ refused left v) × (lookup id t'.web_sockets ≡ some (m.peek s).1)
  receive_message-refused id capacity left s v t e front small bound =
      let answer = received-refused s v capacity left front small bound in
      (
        receive_message-found m id s true (some (pos capacity)) left t e ∙ answer,
        lookup-receive_message m id s true (some (pos capacity)) left t e
            ∙ ap some (
                ap (λ r. after_receive m r true (m.peek s).1) answer
                ∙ after_receive-refused left v (m.peek s).1),
      )
