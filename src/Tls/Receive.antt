-- ===== src/Tls/Receive.antt =====
-- `doRecv` of src/impl/tlstransport.cpp in the versions for GnuTLS and Mbed TLS. The library reads
-- and writes through the callbacks in Tls.Callbacks while it is called: what it does to the transport
-- by them is part of its answer.
use websocket_client.Common.{ℕ, zero, suc, ◌-◌, not, ◌||◌, Option, none, some, List, if◌then◌else◌}
use websocket_client.Transport.{State, state_eq}
use websocket_client.Tls.{Tls, received, emit, change_state, finish}

-- A handshake that waits for input; it is finished; it is to be called again; or `check` throws.
pub data HandshakeReply : Type 0 where
  shake_again shake_done shake_repeat shake_fatal : HandshakeReply

-- A record; the end, by the peer's notification, by its lack, or with no bytes; or as above.
pub data RecordReply : Type 0 where
  record_bytes : List ℕ → RecordReply
  record_end record_again record_repeat record_fatal : RecordReply

pub record Library : Type 0 where
  pub handshake : Tls → HandshakeReply × Tls
  pub read_record : Tls → RecordReply × Tls
  pub bye : Tls → Tls

-- A loop that goes on behind itself, returns from `doRecv`, or throws.
pub data Part : Type 0 where
  goes_on returns throws : Tls → Part

module _ (library : Library) where
  -- `none` where the fuel runs out.
  unfoldable pub handshake_loop : ℕ → Tls → Option Part
  handshake_loop zero w = none
  handshake_loop (suc fuel) w =
      let (reply, w') = library.handshake w in
      let more = handshake_loop fuel w' in
      elim reply [
        | shake_again ↦ some (returns w')
        | shake_done ↦ some (goes_on (change_state State.connected w'))
        | shake_repeat ↦ more
        | shake_fatal ↦ some (throws w')
      ]

  unfoldable pub record_loop : ℕ → Tls → Option Part
  record_loop zero w = none
  record_loop (suc fuel) w =
      let (reply, w') = library.read_record w in
      let more = record_loop fuel w' in
      elim reply [
        | record_bytes content ↦ record_loop fuel (emit (received content) w')
        | record_end ↦ some (goes_on w')
        | record_again ↦ some (returns w')
        | record_repeat ↦ more
        | record_fatal ↦ some (throws w')
      ]

  -- The two `if`s of the `try` block.
  abbrev pub then_records : ℕ → Option Part → Option Part
  then_records fuel none = none
  then_records fuel (some (returns w)) = some (returns w)
  then_records fuel (some (throws w)) = some (throws w)
  then_records fuel (some (goes_on w)) =
      let records = record_loop fuel w in
      if state_eq w.state State.connected then records else some (goes_on w)

  unfoldable pub try_block : ℕ → Tls → Option Part
  try_block fuel w =
      let shaken = handshake_loop fuel w in
      then_records fuel (if state_eq w.state State.connecting then shaken else some (goes_on w))

  -- What follows the `try` block, with the GnuTLS `gnutls_bye` or without.
  abbrev pub after_try : (Tls → Tls) → Option Part → Option Tls
  after_try bye none = none
  after_try bye (some (returns w)) = some w
  after_try bye (some (throws w)) = some (finish (bye w))
  after_try bye (some (goes_on w)) = some (finish (bye w))

  -- GnuTLS: the state is not looked at first.
  unfoldable pub do_recv_gnutls : ℕ → Tls → Option Tls
  do_recv_gnutls fuel w =
      after_try library.bye (try_block fuel (record w { pending = w.pending - 1 }))

  -- Mbed TLS
  unfoldable pub do_recv_mbedtls : ℕ → Tls → Option Tls
  do_recv_mbedtls fuel w =
      let taken = record w { pending = w.pending - 1 } in
      if not (state_eq w.state State.connecting || state_eq w.state State.connected)
      then some taken
      else after_try (λ v. v) (try_block fuel taken)
