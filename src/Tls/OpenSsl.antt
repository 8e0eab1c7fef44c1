-- ===== src/Tls/OpenSsl.antt =====
-- The version of src/impl/tlstransport.cpp for OpenSSL. The library works on two buffers in memory,
-- the `BIO`s, and is a parameter. While it reads and writes it calls back to tell of alerts, and of
-- this code nothing but that function: its effect is added behind each call.
use websocket_client.Common.{
  ℕ, zero, suc, ◌-◌, Bool, true, false, not, ◌||◌, Option, none, some, List, [], ◌∷◌, if◌then◌else◌,
  ◌==◌, ltb, length,
}
use websocket_client.Transport.{State, state_eq, LowerReply}
use websocket_client.Tls.{Tls, done, threw, received, emit, change_state, outgoing, finish}

-- What `SSL_get_error` and `check_error` tell: it went well; to try again later; the peer has closed
-- the connection; or an error, for which `check_error` throws.
pub data Status : Type 0 where
  good try_again zero_return failed : Status

-- The library's calls on its state. `read` gives the bytes that `SSL_read` wrote, `read_out` what
-- `BIO_read` took out of the outgoing buffer, `none` where it is empty; `alerted` is whether the call
-- that led to a state told of an alert.
pub record Ssl (E : Type 0) : Type 0 where
  pub write_in : List ℕ → E → E
  pub handshake : E → Status × E
  pub read : E → Status × List ℕ × E
  pub write : List ℕ → E → Status × E
  pub shutdown : E → E
  pub read_out : E → Option (List ℕ × E)
  pub alerted : E → Bool

-- How a part of a method ends: it goes on, with a value; it threw; or the fuel ran out.
pub data Part (E : Type 0) : Type 0 where
  goes_on : Bool → Tls → E → Part E
  throws : Tls → E → Part E
  out_of_fuel : Part E

abbrev pub then_do : {E : Type 0} → Part E → (Bool → Tls → E → Part E) → Part E
then_do (goes_on b w s) f = f b w s
then_do (throws w s) f = throws w s
then_do out_of_fuel f = out_of_fuel

-- `InfoCallback`
unfoldable pub info_callback : Bool → Tls → Tls
info_callback alert w = if alert then record w { stopping = true } else w

-- `check_error` after the handshake: whether it is finished.
unfoldable pub after_handshake : {E : Type 0} → Status → Tls → E → Part E
after_handshake good w s = goes_on true w s
after_handshake try_again w s = goes_on false w s
after_handshake zero_return w s = throws w s
after_handshake failed w s = throws w s

-- What follows `SSL_read`: the next round, or the end of the loop.
unfoldable pub after_read : {E : Type 0} → Status → Part E → Tls → E → Part E
after_read good more w s = more
after_read try_again more w s = goes_on false w s
after_read zero_return more w s = goes_on true w s
after_read failed more w s = throws w s

module _ {E : Type 0} (ssl : Ssl E) (lower : List ℕ → Tls → LowerReply) where
  -- The transport after a call of the library that left this state.
  abbrev pub informed : Tls → E → Tls
  informed w s = info_callback (ssl.alerted s) w

  -- `flushOutput`; each round takes some bytes out of the buffer. The result is that of the last.
  unfoldable pub flush_output : ℕ → Bool → Tls → E → Part E
  flush_output zero result w s = out_of_fuel
  flush_output (suc fuel) result w s = elim (ssl.read_out s) [
    | none ↦ goes_on result w s
    | some (content, s') ↦ elim (outgoing (lower content w) content w) [
      | done all w' ↦ flush_output fuel all w' s'
      | threw w' ↦ throws w' s'
    ]
  ]

  -- The handshake, and what is written by it; whether it is finished.
  unfoldable pub do_handshake : ℕ → Tls → E → Part E
  do_handshake fuel w s =
      let (status, s1) = ssl.handshake s in
      then_do (flush_output fuel true (informed w s1) s1)
        (λ result w1 s2. after_handshake status w1 s2)

  -- `start`
  unfoldable pub start : ℕ → Tls → E → Part E
  start fuel w s =
      do_handshake fuel (change_state State.connecting (record w { registered = true })) s

  -- `send`, with an empty message passed on.
  unfoldable pub send : ℕ → List ℕ → Tls → E → Part E
  send fuel message w s =
      let (status, s1) = ssl.write message s in
      if not (state_eq w.state State.connected)
      then throws w s
      else if length message == 0
      then elim (outgoing (lower message w) message w) [
        | done all w' ↦ goes_on all w' s
        | threw w' ↦ throws w' s
      ]
      else then_do (flush_output fuel true (informed w s1) s1)
          (λ result w1 s2. elim status [ good ↦ goes_on result w1 s2 | _ ↦ throws w1 s2 ])

  -- The loop of `SSL_read`; whether the peer has closed the connection.
  unfoldable pub read_loop : ℕ → Tls → E → Part E
  read_loop zero w s = out_of_fuel
  read_loop (suc fuel) w s =
      let (status, content, s1) = ssl.read s in
      then_do (flush_output fuel true (informed w s1) s1) (λ result w1 s2.
        let more = read_loop fuel (emit (received content) w1) s2 in after_read status more w1 s2)

  -- What is done with a message of the queue; whether the peer has closed the connection.
  unfoldable pub take_message : ℕ → List ℕ → Tls → E → Part E
  take_message fuel message w s =
      let w1 = if ltb 0 (length message) then w else emit (received message) w in
      let s1 = if ltb 0 (length message) then ssl.write_in message s else s in
      let shaken =
        if state_eq w1.state State.connecting
        then do_handshake fuel w1 s1
        else goes_on false w1 s1 in
      then_do shaken (λ finished w2 s2.
        let w3 = if finished then change_state State.connected w2 else w2 in
        if state_eq w3.state State.connected then read_loop fuel w3 s2 else goes_on false w3 s2)

  -- The loop over the queue; whether it is left towards the end of `doRecv`, and not by the return.
  unfoldable pub recv_loop : ℕ → Tls → E → Part E
  recv_loop zero w s = out_of_fuel
  recv_loop (suc fuel) w s = elim w.incoming_queue [
    | [] ↦ goes_on w.stopping w s
    | message ∷ queue ↦
        then_do (take_message fuel message (record w { incoming_queue = queue }) s)
          (λ is_closed w1 s1.
            let more = recv_loop fuel w1 s1 in if is_closed then goes_on true w1 s1 else more)
  ]

  -- The end of `doRecv` behind `SSL_shutdown`.
  abbrev pub said_goodbye : Tls → E → Tls × E
  said_goodbye w s = (finish (informed w s), s)

  -- `doRecv` from the lock on; an exception ends it like the end of the connection.
  unfoldable pub do_recv : ℕ → Tls → E → Option (Tls × E)
  do_recv fuel w s =
      let taken = record w { pending = w.pending - 1 } in
      if not (state_eq w.state State.connecting || state_eq w.state State.connected)
      then some (taken, s)
      else elim (recv_loop fuel taken s) [
        | goes_on ends w1 s1 ↦ some (if ends then said_goodbye w1 (ssl.shutdown s1) else (w1, s1))
        | throws w1 s1 ↦ some (finish w1, s1)
        | out_of_fuel ↦ none
      ]
