-- ===== src/Client/Open.antt =====
-- The constructor of `WebSocket` of src/impl/websocketimpl.cpp, and its `open` with the reading of
-- the URL.
pub mod Request
pub mod Whole
use websocket_client.Common.{
  ℕ, ◌*◌, Bool, true, false, not, ◌&&◌, ◌||◌, Option, none, some, List, [], ◌∷◌, ◌++◌, ◌==◌,
  if◌then◌else◌, codes, bytes_eq, ◌>>=◌, length,
}
use websocket_client.Utils.Url.{url_decode}
use websocket_client.Url.{Match, before, regex_match}
use websocket_client.Config.{Configuration, ProxyServer, ProxyType}
use websocket_client.Handshake.Stream.{decimal}
use websocket_client.Handshake.{Handshake, make_handshake}
use websocket_client.Client.{Client, ReadyState, ready_eq, closed, Env, Outcome, open_url}

-- `find(…) != string::npos`
abbrev pub starts_with : List ℕ → List ℕ → Bool
starts_with [] s = true
starts_with (c ∷ word) [] = false
starts_with (c ∷ word) (d ∷ s) = (c == d) && starts_with word s

abbrev pub finds : List ℕ → List ℕ → Bool
finds word [] = starts_with word []
finds word (c ∷ s) = starts_with word (c ∷ s) || finds word s

-- Where the certificate comes from: the caller, `Certificate::FromString`, or
-- `Certificate::FromFile` with the pass phrase.
pub data CertificateSource : Type 0 where
  no_certificate given : CertificateSource
  from_string : List ℕ → List ℕ → CertificateSource
  from_file : List ℕ → List ℕ → List ℕ → CertificateSource

-- `none` is `std::invalid_argument`.
unfoldable pub certificate_files :
    Option (List ℕ) → Option (List ℕ) → Option (List ℕ) → Option CertificateSource
certificate_files none none pass = some no_certificate
certificate_files none (some key) pass = none
certificate_files (some pem) none pass = none
certificate_files (some pem) (some key) pass = some (
    if finds (codes "-----BEGIN CERTIFICATE-----") pem
    then from_string pem key
    else from_file pem key (elim pass [ none ↦ [] | some p ↦ p ]))

unfoldable pub certificate_source : Configuration → Bool → Option CertificateSource
certificate_source config true = some given
certificate_source config false =
    certificate_files config.certificate_pem_file config.key_pem_file config.key_pem_pass

-- The check of the proxy, after the certificate was loaded.
unfoldable pub accepts_proxy : Option ProxyServer → Bool
accepts_proxy none = true
accepts_proxy (some server) = elim server.type [ ProxyType.socks5 ↦ false | ProxyType.http ↦ true ]

abbrev pub has_certificate : CertificateSource → Bool
has_certificate no_certificate = false
has_certificate source = true

abbrev pub is_some {ℓ} : {A : Type ℓ} → Option A → Bool
is_some none = false
is_some (some x) = true

abbrev pub default_ws_max_message_size : ℕ
default_ws_max_message_size = 256 * 1024

-- The members after construction.
abbrev pub created : Configuration → CertificateSource → Client
created config source = record {
  state = closed;
  is_secure = has_certificate source;
  has_proxy = is_some config.proxy_server;
  tcp_transport = none;
  proxy_transport = none;
  tls_transport = none;
  ws_transport = none;
  next_transport = 0;
  recv_queue = [];
  open_triggered = false;
  has_message_callback = false;
  max_message_size = elim config.max_message_size [
    | none ↦ default_ws_max_message_size
    | some n ↦ n
  ];
  events = [];
}

-- A certificate that is given is taken as it is. `loads` tells whether one can be made.
abbrev pub loaded : (CertificateSource → Bool) → CertificateSource → Bool
loaded loads no_certificate = true
loaded loads given = true
loaded loads source = loads source

-- The constructor; `none` is an exception.
unfoldable pub make_client :
    (loads : CertificateSource → Bool) → Configuration → Bool → Option Client
make_client loads config given_certificate = do
  source ← certificate_source config given_certificate
  if loaded loads source && accepts_proxy config.proxy_server
      then some (created config source)
      else none

-- What `open` reads from a URL: `hostname` and `service` are dialled, `host` and `path` stand in
-- the request.
pub record Address : Type 0 where
  pub secure : Bool
  pub host : List ℕ
  pub hostname : List ℕ
  pub service : List ℕ
  pub path : List ℕ

-- An absent group reads as the empty text.
abbrev pub group : Option (List ℕ) → List ℕ
group none = []
group (some s) = s

abbrev pub or_else : List ℕ → List ℕ → List ℕ
or_else d [] = d
or_else d (c ∷ s) = c ∷ s

-- The scheme, `ws` by default; `none` is `std::invalid_argument`.
unfoldable pub secure_scheme : List ℕ → Option Bool
secure_scheme scheme =
    if bytes_eq scheme (codes "ws")
    then some false
    else if bytes_eq scheme (codes "wss")
    then some true
    else none

-- An IPv6 literal loses its brackets, another name is decoded.
abbrev pub ends_bracket : List ℕ → Bool
ends_bracket [] = false
ends_bracket (c ∷ []) = c == b']'
ends_bracket (c ∷ d ∷ s) = ends_bracket (d ∷ s)

abbrev pub pop_back : List ℕ → List ℕ
pop_back [] = []
pop_back (c ∷ []) = []
pop_back (c ∷ d ∷ s) = c ∷ pop_back (d ∷ s)

unfoldable pub dialled_name : List ℕ → List ℕ
dialled_name [] = []
dialled_name (c ∷ s) = if c == b'[' && ends_bracket (c ∷ s) then pop_back s else url_decode (c ∷ s)

-- The host of the request has the port where the URL has one.
abbrev pub host_port : List ℕ → List ℕ → List ℕ
host_port hostname [] = hostname
host_port hostname (c ∷ service) = hostname ++ (b':' ∷ c ∷ service)

-- The query is left out where it is empty.
abbrev pub query_part : List ℕ → List ℕ
query_part [] = []
query_part (c ∷ query) = b'?' ∷ c ∷ query

unfoldable pub address_of : Bool → Match → Address
address_of secure m = record {
  secure = secure;
  host = host_port m.hostname (group m.service);
  hostname = dialled_name m.hostname;
  service = or_else (if secure then codes "443" else codes "80") (group m.service);
  path = or_else (b'/' ∷ []) m.path ++ query_part (group m.query);
}

unfoldable pub read_match : Match → Option Address
read_match m = do
  secure ← secure_scheme (or_else (codes "ws") (group m.scheme))
  some (address_of secure m)

-- `none` is `std::invalid_argument`.
unfoldable pub read_url : List ℕ → Option Address
read_url url = do m ← regex_match url; if length m.hostname == 0 then none else read_match m

-- The name and the service that the TCP transport is made with.
unfoldable pub endpoint : Option ProxyServer → Address → List ℕ × List ℕ
endpoint none a = (a.hostname, a.service)
endpoint (some server) a = (server.hostname, decimal server.port)

-- What `open` does: it throws before it has changed anything, or it has the address, the handshake
-- and the endpoint that it goes on with.
pub data Opening : Type 0 where
  logic_error invalid_argument : Opening
  opening : Address → Handshake → List ℕ × List ℕ → Outcome → Opening

unfoldable pub open_address : Env → Configuration → Client → Address → Opening
open_address env config w a = elim (make_handshake a.host a.path config.protocols) [
  | none ↦ invalid_argument
  | some handshake ↦ opening a handshake (endpoint config.proxy_server a) (open_url env a.secure w)
]

unfoldable pub open_websocket : Env → Configuration → List ℕ → Client → Opening
open_websocket env config url w =
    let read : Opening = elim (read_url url) [
      | none ↦ invalid_argument
      | some a ↦ open_address env config w a
    ] in
    if ready_eq w.state closed then read else logic_error
