-- ===== src/Capi/Drain.antt =====
-- `wscReceiveMessage` of src/capi.cpp, against a channel that keeps its messages in a queue.
use websocket_client.Common.{
  ℕ, zero, suc, ◌+◌, ◌^◌, ◌<◌, ◌≤◌, arith, ◌≡◌, refl, ap, ap₂, ◌∙◌, Bool, true, Option, none, some,
  List, [], ◌∷◌, ◌++◌, map, length, All, le→ltb_false, ==-refl,
}
use websocket_client.Common.Maps.{lookup, lookup-insert}
use websocket_client.Message.{Variant}
use websocket_client.Capi.Int.{ℤ, pos, neg, less, to_int-small, err_success, err_not_avail}
use websocket_client.Capi.{Methods, Table, on_socket, wrap}
use websocket_client.Capi.Buffers.{
  Received, receive_binary, receive_string, copy_binary, copy_string,
}
use websocket_client.Capi.Receive.{received, after_receive, looked_at, wsc_receive_message}

-- The first message, and the others.
abbrev first : List Variant → Option Variant
first [] = none
first (v ∷ vs) = some v

abbrev pub others : List Variant → List Variant
others [] = []
others (v ∷ vs) = vs

-- A view of the objects as queues of messages: `peek` gives the first one, whatever it does to the
-- object, and `receive` behind it leaves the others.
pub record IsQueue {S : Type 0} (m : Methods S) (contents : S → List Variant) : Type 0 where
  pub peek_law : (s : S) → (m.peek s).0 ≡ first (contents s)
  pub receive_law : (s : S) → contents (m.receive (m.peek s).1) ≡ others (contents s)

-- The bytes that a message takes in the buffer, and what the caller is to find there.
abbrev pub room : Variant → ℕ
room (Variant.binary b) = length b
room (Variant.string b) = length b + 1

abbrev pub delivered : Variant → Received
delivered (Variant.binary b) = record {
  code = err_success;
  size = some (pos (length b));
  bytes = b;
}
delivered (Variant.string b) = record {
  code = err_success;
  size = some (neg (length b + 1));
  bytes = b ++ (0 ∷ []);
}

abbrev pub nothing_left : ℕ → Received
nothing_left capacity = record { code = err_not_avail; size = some (pos capacity); bytes = [] }

receive_binary-fits :
    (capacity : ℕ) (b : List ℕ)
    → length b ≤ capacity
    → capacity < 2 ^ 31
    → receive_binary true capacity b ≡ delivered (Variant.binary b)
unfolding receive_binary copy_binary less
receive_binary-fits capacity b h small =
    simp
      (less, to_int-small (length b) (omega (arith, h, small)), le→ltb_false capacity (length b) h)

receive_string-fits :
    (capacity left : ℕ) (b : List ℕ)
    → length b + 1 ≤ capacity
    → capacity < 2 ^ 31
    → receive_string true capacity left b ≡ delivered (Variant.string b)
unfolding receive_string copy_string less
receive_string-fits capacity left b h small = simp (
  less,
  to_int-small (length b + 1) (omega (arith, h, small)),
  le→ltb_false capacity (length b + 1) h,
)

module _ {S : Type 0} (m : Methods S) where
  pub received-fits :
      (s : S) (v : Variant) (capacity left : ℕ)
      → (m.peek s).0 ≡ some v
      → room v ≤ capacity
      → capacity < 2 ^ 31
      → received m (some s) true (some (pos capacity)) left ≡ delivered v
  unfolding received
  received-fits s (Variant.binary b) capacity left e h small =
      simp (received, e, receive_binary-fits capacity b h small)
  received-fits s (Variant.string b) capacity left e h small =
      simp (received, e, receive_string-fits capacity left b h small)

  received-nothing :
      (s : S) (capacity left : ℕ)
      → (m.peek s).0 ≡ none
      → received m (some s) true (some (pos capacity)) left ≡ nothing_left capacity
  unfolding received
  received-nothing s capacity left e = simp (received, e)

  -- So many calls one behind the other, each with the same buffer, and their answers.
  pub receive_each : ℕ → ℕ → ℕ → ℕ → Table S → List Received
  receive_each zero id capacity left t = []
  receive_each (suc n) id capacity left t =
      let (r, t') = wsc_receive_message m id true (some (pos capacity)) left t in
      r ∷ receive_each n id capacity left t'

  -- What a call leaves at the handle, and at the others.
  pub lookup-receive_message :
      (id : ℕ) (s : S) (has_buffer : Bool) (size : Option ℤ) (left : ℕ) (t : Table S)
      → lookup id t.web_sockets ≡ some s
      → lookup id (wsc_receive_message m id has_buffer size left t).1.web_sockets
        ≡ some (
            after_receive m
              (received m (some s) has_buffer size left)
              has_buffer
              (looked_at m size s))
  unfolding wsc_receive_message on_socket wrap
  lookup-receive_message id s has_buffer size left t e = rw (
    on_socket,
    e,
    e,
    lookup-insert id id
        (after_receive m (received m (some s) has_buffer size left) has_buffer (looked_at m size s))
        t.web_sockets,
    ==-refl id,
  )

  after_receive-delivered :
      (v : Variant) (s : S) → after_receive m (delivered v) true s ≡ m.receive s
  unfolding after_receive
  after_receive-delivered (Variant.binary b) s = refl
  after_receive-delivered (Variant.string b) s = refl

  pub receive_message-found :
      (id : ℕ) (s : S) (has_buffer : Bool) (size : Option ℤ) (left : ℕ) (t : Table S)
      → lookup id t.web_sockets ≡ some s
      → (wsc_receive_message m id has_buffer size left t).0
        ≡ received m (some s) has_buffer size left
  unfolding wsc_receive_message
  receive_message-found id s has_buffer size left t e =
      ap (λ o. received m o has_buffer size left) e

  module _ (contents : S → List Variant) (law : IsQueue m contents) where
    -- Where the channel keeps its messages in a queue, of which peek may empty the first, and the
    -- buffer, of less than 2 ^ 31 bytes, has room for each of them, one call of wscReceiveMessage
    -- more than there are messages gives all of them, once each and in order, with their sizes,
    -- negative for a text with its zero byte, and then the code that none is available.
    pub receive_each-drains :
        (vs : List Variant) (id capacity left : ℕ) (s : S) (t : Table S)
        → lookup id t.web_sockets ≡ some s
        → contents s ≡ vs
        → All (λ v. room v ≤ capacity) vs
        → capacity < 2 ^ 31
        → receive_each (suc (length vs)) id capacity left t
          ≡ map delivered vs ++ (nothing_left capacity ∷ [])
    unfolding receive_each
    receive_each-drains [] id capacity left s t e same fits small =
        ap (λ r. r ∷ [])
          (receive_message-found id s true (some (pos capacity)) left t e
            ∙ received-nothing s capacity left (law.peek_law s ∙ ap first same))
    receive_each-drains (v ∷ vs) id capacity left s t e same fits small =
        let next = (wsc_receive_message m id true (some (pos capacity)) left t).1 in
        let answer =
          received-fits s v capacity left (law.peek_law s ∙ ap first same) fits.0 small in
        ap₂ (λ a b. a ∷ b) (receive_message-found id s true (some (pos capacity)) left t e ∙ answer)
          (receive_each-drains vs id capacity left (m.receive (m.peek s).1) next
            (lookup-receive_message id s true (some (pos capacity)) left t e
              ∙ ap some (
                  ap (λ r. after_receive m r true (m.peek s).1) answer
                  ∙ after_receive-delivered v (m.peek s).1))
            (law.receive_law s ∙ ap others same) fits.1 small)
