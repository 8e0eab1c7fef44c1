-- ===== src/Capi/Socket/Emptied.antt =====
-- `wscReceiveMessage` of src/capi.cpp on the `WebSocket` of src/impl/websocketimpl.cpp, whose `peek`
-- moves the content of a message out.
use websocket_client.Common.{
  ℕ, suc, ◌^◌, ◌≤◌, ◌<◌, ◌≡◌, refl, sym, ap, ◌∙◌, arith, true, some, List, [], ◌∷◌, ◌++◌, map,
  length, All, inl, inr, ◌⊎◌,
}
use websocket_client.Common.Maps.{lookup}
use websocket_client.Message.{Message, MessageType, Variant, to_variant}
use websocket_client.Client.{Client, Env, receive}
use websocket_client.Capi.Int.{pos}
use websocket_client.Capi.{Table}
use websocket_client.Capi.Receive.{wsc_receive_message}
use websocket_client.Capi.Drain.{
  IsQueue, others, room, delivered, nothing_left, received-fits, receive_message-found,
  receive_each, receive_each-drains,
}
use websocket_client.Capi.Echo.{receive_message-refused}
use websocket_client.Capi.Socket.{Socket, with_client, moved_from, peek, web_socket}

List-cases {ℓ} :
    {A : Type ℓ} (xs : List A) → (xs ≡ []) ⊎ ((x : A) × (rest : List A) × (xs ≡ x ∷ rest))
List-cases [] = inl refl
List-cases (x ∷ rest) = inr (x, rest, refl)

-- The messages that wait in the queue of the client.
abbrev pub waiting : Socket → List Variant
waiting s = map to_variant s.client.recv_queue

module _ (env : Env) (address : ℕ → List ℕ) where
  peek-none : (s : Socket) → s.client.recv_queue ≡ [] → (peek s).1 ≡ s
  unfolding peek
  peek-none s e = simp (peek, e)

  receive-none : (w : Client) → w.recv_queue ≡ [] → (receive w).1.recv_queue ≡ []
  unfolding receive
  receive-none w e = simp (receive, e)

  peek-some :
      (s : Socket) (m : Message) (queue : List Message)
      → s.client.recv_queue ≡ m ∷ queue
      → (peek s).1.client.recv_queue ≡ moved_from m ∷ queue
  unfolding peek
  peek-some s m queue e = simp (peek, e)

  receive-some :
      (w : Client) (m : Message) (queue : List Message)
      → w.recv_queue ≡ m ∷ queue
      → (receive w).1.recv_queue ≡ queue
  unfolding receive
  receive-some w m queue e = simp (receive, e)

  web_socket-IsQueue : IsQueue (web_socket env address) waiting
  unfolding peek receive
  web_socket-IsQueue = record {
    peek_law = λ s. elim (List-cases s.client.recv_queue) [
      | inl e ↦ simp (peek, e)
      | inr (m, queue, e) ↦ simp (peek, e)
    ];
    receive_law = λ s. elim (List-cases s.client.recv_queue) [
      | inl e ↦
          ap (λ x. waiting (with_client x (receive x.client).1)) (peek-none s e)
          ∙ ap (λ queue. map to_variant queue) (receive-none s.client e)
          ∙ ap (λ q. others (map to_variant q)) (sym e)
      | inr (m, queue, e) ↦
          ap (λ q. map to_variant q)
            (receive-some (peek s).1.client (moved_from m) queue (peek-some s m queue e))
          ∙ ap (λ q. others (map to_variant q)) (sym e)
    ];
  }

  -- On a WebSocket, with a buffer of less than 2 ^ 31 bytes that has room for each message that
  -- waits, one call of wscReceiveMessage more than there are messages gives all of them, once each
  -- and in order, and then the code that none is available, although each look at a binary message
  -- empties it.
  pub receive_each-waiting :
      (id capacity left : ℕ) (s : Socket) (t : Table Socket)
      → lookup id t.web_sockets ≡ some s
      → All (λ v. room v ≤ capacity) (waiting s)
      → capacity < 2 ^ 31
      → receive_each (web_socket env address) (suc (length (waiting s))) id capacity left t
        ≡ map delivered (waiting s) ++ (nothing_left capacity ∷ [])
  receive_each-waiting id capacity left s t found fits small =
      receive_each-drains (web_socket env address) waiting web_socket-IsQueue (waiting s) id
        capacity left s t found refl fits small

  peek-binary :
      (s : Socket) (b : List ℕ) (queue : List Message)
      → s.client.recv_queue ≡ record { type = MessageType.binary; content = b } ∷ queue
      → ((peek s).0 ≡ some (Variant.binary b))
        × ((peek s).1.client.recv_queue
            ≡ record { type = MessageType.binary; content = [] } ∷ queue)
  unfolding peek
  peek-binary s b queue e = (simp (peek, e), simp (peek, e))

  -- On a WebSocket whose first message is a binary one that the buffer has no room for, of less than
  -- 2 ^ 31 bytes, a call of wscReceiveMessage loses its content: a second call, with a buffer of any
  -- size below 2 ^ 31, gives an empty message.
  pub receive_message-lost :
      (id capacity left enough : ℕ) (s : Socket) (b : List ℕ) (queue : List Message)
      (t : Table Socket)
      → lookup id t.web_sockets ≡ some s
      → s.client.recv_queue ≡ record { type = MessageType.binary; content = b } ∷ queue
      → capacity < length b
      → length b < 2 ^ 31
      → enough < 2 ^ 31
      → let m = web_socket env address in
        let t1 = (wsc_receive_message m id true (some (pos capacity)) left t).1 in
        (wsc_receive_message m id true (some (pos enough)) left t1).0
        ≡ delivered (Variant.binary [])
  receive_message-lost id capacity left enough s b queue t found front large bound small =
      let m = web_socket env address in
      let t1 = (wsc_receive_message m id true (some (pos capacity)) left t).1 in
      let (full, emptied) = peek-binary s b queue front in
      let refused =
        receive_message-refused m id capacity left s (Variant.binary b) t found full large bound in
      let next = (peek s).1 in
      receive_message-found m id next true (some (pos enough)) left t1 refused.1
      ∙ received-fits m next (Variant.binary []) enough left (peek-binary next [] queue emptied).0
          (omega arith) small
