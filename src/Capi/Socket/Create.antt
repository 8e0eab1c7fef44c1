-- ===== src/Capi/Socket/Create.antt =====
-- What `wscCreateWebSocket` of src/capi.cpp does with a URL, down to the transport.
use websocket_client.Common.{ℕ, ◌+◌, ◌≡◌, ◌⊎◌, Bool, true, false, Option, none, some, List, [], ◌∷◌}
use websocket_client.Common.Maps.{insert}
use websocket_client.Url.{Match}
use websocket_client.Config.{default_configuration}
use websocket_client.Client.{
  connecting, Client, Env, Outcome, remote_close, opening, started, stopped,
}
use websocket_client.Client.Open.{CertificateSource, no_certificate, created, read_url, address_of}
use websocket_client.Client.Open.Request.{fresh_handshake}
use websocket_client.Client.Open.Whole.{IsReading}
use websocket_client.Capi.Int.{ℤ, pos, err_invalid, err_failure}
use websocket_client.Capi.Calls.{wsc_create_web_socket}
use websocket_client.Capi.{Table, after_open}
use websocket_client.Capi.Socket.{Socket, new_socket, returned, web_socket, makers}

-- The client that is left: its TCP transport, the first one, was started.
abbrev pub connecting_client : Bool → Client
connecting_client secure = record (created default_configuration no_certificate) {
  state = connecting;
  is_secure = secure;
  tcp_transport = some 0;
  next_transport = 1;
  events = opening ∷ started 0 ∷ [];
}

abbrev fresh : Client
fresh = created default_configuration no_certificate

-- The object keeps the handshake for the address that was read.
abbrev pub opened_socket : Match → Bool → Client → Socket
opened_socket m secure w = record (new_socket default_configuration w) {
  handshake = some (fresh_handshake default_configuration (address_of secure m));
}

-- The client after the transport could not be started.
abbrev pub failed_client : Env → Bool → Client
failed_client env secure = remote_close env (record (connecting_client secure) {
  tcp_transport = none;
  events = opening ∷ started 0 ∷ stopped 0 ∷ [];
})

module _ (env : Env) (address : ℕ → List ℕ) (loads : CertificateSource → Bool)
    (stoul : List ℕ → Option ℕ) (url : List ℕ) (t : Table Socket) where
  -- The call with the outcome of `open`, and what it says of the URL.
  abbrev pub Creates : Type 0
  Creates =
      let r = wsc_create_web_socket (web_socket env address) (makers loads stoul) url t in
      ((read_url url ≡ none) × (r.0 ≡ err_invalid) × (r.1.web_sockets ≡ t.web_sockets))
      ⊎ ((m : Match) × (secure : Bool) × IsReading url m secure
          × (((env.start_throws 0 ≡ true) × (r.0 ≡ err_failure) × (r.1.web_sockets ≡ t.web_sockets))
              ⊎ ((env.start_throws 0 ≡ false)
                  × (r.0 ≡ pos (t.last_id + 1))
                  × (r.1.web_sockets
                      ≡ insert (t.last_id + 1) (opened_socket m secure (connecting_client secure))
                          t.web_sockets))))

  abbrev code_of : ℤ × Table Socket → ℤ
  code_of r = r.0

  abbrev objects_of : ℤ × Table Socket → List (ℕ × Socket)
  objects_of r = r.1.web_sockets

  abbrev finished : Match → Bool → Outcome → ℤ × Table Socket
  finished m secure o =
      after_open (web_socket env address) (returned (opened_socket m secure fresh) o) t
