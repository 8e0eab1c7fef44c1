-- ===== src/Client/Open/Request.antt =====
-- From a URL to the request: `open` of src/impl/websocketimpl.cpp and the handshake of
-- src/impl/wshandshake.cpp.
use websocket_client.Common.{
  ℕ, ◌≡◌, ◌≢◌, refl, arith, Bool, true, false, some, List, [], ◌∷◌, ◌++◌, Avoids, ◌==◌, codes,
  length,
}
use websocket_client.Url.{Match, text}
use websocket_client.Url.RoundTrip.{IsCanonical, regex_match-text}
use websocket_client.Config.{Configuration}
use websocket_client.Http.Fields.{NoLeadingSpace}
use websocket_client.Utils.Tokens.{implode}
use websocket_client.Handshake.Stream.{IsWord}
use websocket_client.Handshake.Request.Shape.{GoodProtocols}
use websocket_client.Handshake.{Handshake, make_handshake}
use websocket_client.Client.{Client, Env, closed, ready_eq, open_url}
use websocket_client.Client.Open.{
  Address, group, or_else, secure_scheme, host_port, query_part, address_of, read_match, read_url,
  endpoint, opening, open_address, open_websocket,
}

-- The handshake that a client starts with.
abbrev pub fresh_handshake : Configuration → Address → Handshake
fresh_handshake config a = record {
  host = a.host;
  path = a.path;
  protocols = config.protocols;
  key = [];
}

or_else-ne-nil : (c : ℕ) (d s : List ℕ) → or_else (c ∷ d) s ≢ []
or_else-ne-nil c d [] e = cc
or_else-ne-nil c d (b ∷ s) e = cc

length-append_pos : (s t : List ℕ) → s ≢ [] → (length (s ++ t) == 0) ≡ false
length-append_pos [] t h = absurd (h refl)
length-append_pos (c ∷ s) t h = ground arith

length-host_port : (s t : List ℕ) → s ≢ [] → (length (host_port s t) == 0) ≡ false
length-host_port [] t h = absurd (h refl)
length-host_port (c ∷ s) [] h = ground arith
length-host_port (c ∷ s) (d ∷ t) h = ground arith

-- The constructor of the handshake never throws there.
pub make_handshake-address_of :
    (secure : Bool) (m : Match) (protocols : List (List ℕ))
    → m.hostname ≢ []
    → let a = address_of secure m in
      make_handshake a.host a.path protocols
      ≡ some (record { host = a.host; path = a.path; protocols = protocols; key = [] })
unfolding make_handshake address_of
make_handshake-address_of secure m protocols h =
    rw
      (
        make_handshake,
        length-host_port m.hostname (group m.service) h,
        length-append_pos (or_else (b'/' ∷ []) m.path) (query_part (group m.query))
            (or_else-ne-nil b'/' [] m.path),
      )
      refl

length_ne_nil : (s : List ℕ) → s ≢ [] → (length s == 0) ≡ false
length_ne_nil [] h = absurd (h refl)
length_ne_nil (c ∷ s) h = ground arith

read_url-text :
    (m : Match) (secure : Bool)
    → IsCanonical m
    → m.hostname ≢ []
    → secure_scheme (or_else (codes "ws") (group m.scheme)) ≡ some secure
    → read_url (text m) ≡ some (address_of secure m)
unfolding read_url read_match
read_url-text m secure v h k =
    rw (regex_match-text m v, read_url, length_ne_nil m.hostname h, read_match, k) refl

-- The protocols of a configuration that a request can carry.
pub record IsOffer (protocols : List (List ℕ)) : Type 0 where
  pub tokens : GoodProtocols protocols
  pub line : Avoids 10 (implode protocols b',')
  pub start : NoLeadingSpace (implode protocols b',')

-- No white space in the parts of a URL that reach the request.
pub record IsSpaceless (m : Match) : Type 0 where
  pub hostname : IsWord m.hostname
  pub service : IsWord (group m.service)
  pub path : IsWord m.path
  pub query : IsWord (group m.query)

module _ (env : Env) (config : Configuration) (m : Match) (secure : Bool) (w : Client)
    (canonical : IsCanonical m) (named : m.hostname ≢ [])
    (scheme : secure_scheme (or_else (codes "ws") (group m.scheme)) ≡ some secure) where
  -- A closed client that opens the URL of the given parts starts a handshake for its host and path
  -- and dials its host, or the proxy.
  pub open_websocket-text :
      ready_eq w.state closed ≡ true
      → let a = address_of secure m in
        open_websocket env config (text m) w
        ≡ opening a
            (fresh_handshake config a)
            (endpoint config.proxy_server a)
            (open_url env secure w)
  unfolding open_websocket open_address
  open_websocket-text fresh =
      rw
        (
          open_websocket,
          fresh,
          read_url-text m secure canonical named scheme,
          open_address,
          make_handshake-address_of secure m config.protocols named,
        )
        (unfold address_of in refl)
