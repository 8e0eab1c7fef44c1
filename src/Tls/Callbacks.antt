-- ===== src/Tls/Callbacks.antt =====
-- The versions of src/impl/tlstransport.cpp for GnuTLS and Mbed TLS: the callbacks that the library
-- calls for its input and output, and sending.
use websocket_client.Common.{
  ℕ, zero, suc, ◌+◌, min, Bool, true, false, not, Option, none, some, List, [], ◌∷◌, if◌then◌else◌,
  ◌==◌, ltb, leb, length, take, drop,
}
use websocket_client.Transport.{State, state_eq, LowerReply, accepted, thrown}
use websocket_client.Tls.{
  Tls, received, sent, Outcome, done, threw, emit, running, change_state, enqueue_recv,
}

-- What a read tells the library: some bytes, of which none mean the end of the stream; to try again
-- later; or the end of the stream.
pub data ReadReply : Type 0 where
  bytes : List ℕ → ReadReply
  again closed : ReadReply

-- The overridden `outgoing`, which keeps the result.
unfoldable pub keep_outgoing : LowerReply → List ℕ → Tls → Outcome
keep_outgoing (accepted all) message w =
    done all (record (emit (sent message) w) { outgoing_result = all })
keep_outgoing thrown message w = threw w

-- The GnuTLS `start`.
unfoldable pub start : Tls → Tls
start w = enqueue_recv (change_state State.connecting (record w { registered = true }))

-- The loop over the queue: the first message that is not empty; the empty ones are passed on, and
-- the last one stays where no other follows.
abbrev pub next_message : List (List ℕ) → Tls → Tls
next_message [] w = record w { incoming_queue = [] }
next_message (message ∷ queue) w =
    let passed =
      next_message queue (emit (received message) (record w { incoming_message = some message })) in
    if ltb 0 (length message)
    then record w { incoming_message = some message; incoming_queue = queue }
    else passed

-- The message that is read up is dropped.
unfoldable pub drop_read : Tls → Tls
drop_read w = elim w.incoming_message [
  | none ↦ w
  | some message ↦
      if leb (length message) w.position then record w { incoming_message = none } else w
]

unfoldable pub refill : Tls → Tls
refill w = elim w.incoming_message [
  | none ↦ next_message w.incoming_queue (record w { position = 0 })
  | some message ↦ w
]

-- The bytes that are handed over.
unfoldable pub hand_over : ℕ → Tls → ReadReply × Tls
hand_over max_length w = elim w.incoming_message [
  | none ↦ if running w then (again, w) else (closed, w)
  | some message ↦
      let rest = drop w.position message in
      let n = min max_length (length rest) in
      (bytes (take n rest), record w { position = w.position + n })
]

-- `ReadCallback`
abbrev pub read_callback : ℕ → Tls → ReadReply × Tls
read_callback max_length w = hand_over max_length (refill (drop_read w))

-- The GnuTLS `WriteCallback`: the count of bytes, or `none` for -1.
unfoldable pub write_callback : LowerReply → List ℕ → Tls → Option ℕ × Tls
write_callback reply content w =
    if length content == 0 then (some 0, w) else elim (keep_outgoing reply content w) [
      | done all w' ↦ (some (length content), w')
      | threw w' ↦ (none, w')
    ]

-- The Mbed TLS `ReadCallback`, which differs in the codes that it returns.
abbrev pub read_callback_mbedtls : ℕ → Tls → ReadReply × Tls
read_callback_mbedtls = read_callback

-- The Mbed TLS `WriteCallback`, which lets an exception pass; the count is that of the bytes.
unfoldable pub write_callback_mbedtls : LowerReply → List ℕ → Tls → Outcome
write_callback_mbedtls reply content w = keep_outgoing reply content w

-- The GnuTLS `TimeoutCallback`: whether there is something to read.
unfoldable pub timeout_callback : Tls → Bool
timeout_callback w =
    let waiting : Bool = elim w.incoming_queue [ [] ↦ false | _ ↦ true ] in
    elim w.incoming_message [
      | none ↦ waiting
      | some message ↦ if ltb w.position (length message) then true else waiting
    ]

-- What `gnutls_record_send` or `mbedtls_ssl_write` answers: to be called again, or whether it went
-- well. It calls `WriteCallback`, whose effects are those of the library.
pub data SendReply : Type 0 where
  retry : SendReply
  finished : Bool → SendReply

-- `send` from the loop on; `none` where the fuel runs out.
unfoldable pub send_loop : (library : ℕ → Tls → SendReply × Tls) → ℕ → ℕ → Tls → Option Outcome
send_loop library zero call w = none
send_loop library (suc fuel) call w =
    let (reply, w') = library call w in
    let more = send_loop library fuel (call + 1) w' in
    elim reply [
      | retry ↦ more
      | finished good ↦ some (if good then done w'.outgoing_result w' else threw w')
    ]

-- An empty message and the null pointer are passed on.
unfoldable pub send :
    (library : ℕ → Tls → SendReply × Tls) → LowerReply → ℕ → List ℕ → Tls → Option Outcome
send library lower fuel message w =
    if not (state_eq w.state State.connected)
    then some (threw w)
    else if length message == 0
    then some (keep_outgoing lower message w)
    else send_loop library fuel 0 w
