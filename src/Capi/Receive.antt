-- ===== src/Capi/Receive.antt =====
-- The calls of src/capi.cpp that give something back in a buffer.
use websocket_client.Common.{ℕ, Bool, Option, none, some, List, [], if◌then◌else◌}
use websocket_client.Common.Maps.{lookup}
use websocket_client.Message.{Variant}
use websocket_client.Capi.Int.{ℤ, pos, negsuc, abs, err_invalid, err_not_avail}
use websocket_client.Capi.Buffers.{copy_string, Received, receive_binary, receive_string}
use websocket_client.Capi.{Methods, Table, returns, on_socket}

module _ {S : Type 0} (m : Methods S) where
  -- What `wscReceiveMessage` answers for the object of the handle, if there is one.
  unfoldable pub received : Option S → Bool → Option ℤ → ℕ → Received
  received none has_buffer size left = record { code = err_invalid; size = size; bytes = [] }
  received (some s) has_buffer none left = record { code = err_invalid; size = none; bytes = [] }
  received (some s) has_buffer (some size) left = elim (m.peek s).0 [
    | none ↦ record { code = err_not_avail; size = some (pos (abs size)); bytes = [] }
    | some v ↦ elim v [
      | Variant.binary b ↦ receive_binary has_buffer (abs size) b
      | Variant.string b ↦ receive_string has_buffer (abs size) left b
    ]
  ]

  -- The object after the message was looked at, which is only done where there is a size.
  abbrev pub looked_at : Option ℤ → S → S
  looked_at none s = s
  looked_at (some size) s = (m.peek s).1

  -- The message is taken from the channel where it was copied.
  unfoldable pub after_receive : Received → Bool → S → S
  after_receive r has_buffer s = elim r.code [
    | pos _ ↦ if has_buffer then m.receive s else s
    | negsuc _ ↦ s
  ]

  unfoldable pub wsc_receive_message : ℕ → Bool → Option ℤ → ℕ → Table S → Received × Table S
  wsc_receive_message id has_buffer size left t =
      let s = lookup id t.web_sockets in
      let r = received s has_buffer size left in
      let body = λ (s : S). returns r.code (after_receive r has_buffer (looked_at size s)) in
      let (_, t') = on_socket m id body t in (r, t')

  -- `wscGetWebSocketRemoteAddress`, `wscGetWebSocketPath`: the result and the bytes written.
  unfoldable pub copy_text : (S → Option (List ℕ)) → ℕ → Bool → ℕ → Table S → ℤ × List ℕ
  copy_text text id has_buffer size t = elim (lookup id t.web_sockets) [
    | none ↦ (err_invalid, [])
    | some s ↦ elim (text s) [ none ↦ (err_not_avail, []) | some b ↦ copy_string b has_buffer size ]
  ]

  abbrev pub wsc_get_web_socket_remote_address : ℕ → Bool → ℕ → Table S → ℤ × List ℕ
  wsc_get_web_socket_remote_address = copy_text m.remote_address

  abbrev pub wsc_get_web_socket_path : ℕ → Bool → ℕ → Table S → ℤ × List ℕ
  wsc_get_web_socket_path = copy_text m.path
