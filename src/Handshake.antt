-- ===== src/Handshake.antt =====
-- The class `WsHandshake` of src/impl/wshandshake.cpp: the HTTP upgrade, from both sides.
-- The SHA-1 digest is that of OpenSSL, GnuTLS or Mbed TLS, hence a parameter.
pub mod Stream
pub mod Request
pub mod Response
use websocket_client.Common.{
  ℕ, ◌+◌, ◌≡◌, Bool, true, false, not, List, [], ◌∷◌, ◌++◌, map, Option, none, some, codes,
  bytes_eq, ◌==◌, if◌then◌else◌, length,
}
use websocket_client.Utils.Base64.{base64_encode}
use websocket_client.Utils.Tokens.{explode, implode}
use websocket_client.Http.Lines.{is_http_request, parse_http_lines}
use websocket_client.Http.Fields.{tolower, Headers, parse_http_headers, find_header}
use Stream.{read_word, read_unsigned, decimal}

pub record Handshake : Type 0 where
  pub host : List ℕ
  pub path : List ℕ
  pub protocols : List (List ℕ)
  pub key : List ℕ

-- The exceptions: `WsHandshake::RequestError` with its code, `WsHandshake::Error`, and any other
-- `std::exception`.
pub data Exception : Type 0 where
  request_error : ℕ → Exception
  handshake_error std_exception : Exception

-- What a parser returns or throws.
pub data Reply : Type 0 where
  done : ℕ → Reply
  threw : Exception → Reply

-- The constructor with a host and a path; `none` is its `std::invalid_argument`.
unfoldable pub make_handshake : List ℕ → List ℕ → List (List ℕ) → Option Handshake
make_handshake host path protocols =
    if length host == 0
    then none
    else if length path == 0
    then none
    else some (record { host = host; path = path; protocols = protocols; key = [] })

-- The optional header line for the protocols, and the empty line.
pub generate_end : List (List ℕ) → List ℕ
generate_end [] = codes "\r\n"
generate_end (p ∷ ps) =
    codes "Sec-WebSocket-Protocol: " ++ (implode (p ∷ ps) b',' ++ codes "\r\n\r\n")

-- `generateKey` on the sixteen bytes that the random generator gives.
pub generate_key : List ℕ → List ℕ
generate_key random = base64_encode random

-- The new key is stored, and the request is written with it.
pub generate_http_request : List ℕ → Handshake → Handshake × List ℕ
generate_http_request random h = (
  record h { key = generate_key random },
  codes "GET "
      ++ (h.path
          ++ (codes " HTTP/1.1\r\nHost: "
              ++ (h.host
                  ++ (codes
                        "\r\nConnection: Upgrade\r\nUpgrade: websocket\r\nSec-WebSocket-Version: 13\r\nSec-WebSocket-Key: "
                      ++ (generate_key random ++ (codes "\r\n" ++ generate_end h.protocols)))))),
)

pub get_http_error_name : ℕ → List ℕ
get_http_error_name code =
    if code == 400
    then codes "Bad Request"
    else if code == 404
    then codes "Not Found"
    else if code == 405
    then codes "Method Not Allowed"
    else if code == 426
    then codes "Upgrade Required"
    else if code == 500
    then codes "Internal Server Error"
    else codes "Error"

pub generate_http_error : ℕ → List ℕ
generate_http_error code =
    let error = decimal code ++ (codes " " ++ get_http_error_name code) in
    codes "HTTP/1.1 "
    ++ (error
        ++ (codes "\r\nServer: libdatachannel\r\nContent-Type: text/plain\r\nContent-Length: "
            ++ (decimal (length error)
                ++ (codes "\r\nAccess-Control-Allow-Origin: *\r\n\r\n" ++ error))))

-- The value of the `upgrade` header is compared in lower case.
pub is_websocket : List ℕ → Bool
is_websocket upgrade = bytes_eq (map tolower upgrade) (codes "websocket")

-- The last part of `parseHttpRequest`: the key and the optional protocols.
pub take_key : Headers → ℕ → Handshake → Handshake × Reply
take_key headers len h = elim (find_header (codes "sec-websocket-key") headers) [
  | none ↦ (h, threw (request_error 400))
  | some key ↦ (
    elim (find_header (codes "sec-websocket-protocol") headers) [
      | none ↦ record h { key = key }
      | some list ↦ record h { key = key; protocols = explode list b',' }
    ],
    done len,
  )
]

pub take_upgrade : Headers → ℕ → Handshake → Handshake × Reply
take_upgrade headers len h = elim (find_header (codes "upgrade") headers) [
  | none ↦ (h, threw (request_error 426))
  | some upgrade ↦
      if is_websocket upgrade then take_key headers len h else (h, threw (request_error 426))
]

pub take_host : Headers → ℕ → Handshake → Handshake × Reply
take_host headers len h = elim (find_header (codes "host") headers) [
  | none ↦ (h, threw (request_error 400))
  | some host ↦ take_upgrade headers len (record h { host = host })
]

-- The request line: only its first two words are used.
pub take_request_line : List ℕ → List (List ℕ) → ℕ → Handshake → Handshake × Reply
take_request_line line lines len h =
    let (method, after) = read_word line in
    let (path, protocol) = read_word after in
    if bytes_eq method (codes "GET")
    then take_host (parse_http_headers lines) len (record h { path = path })
    else (h, threw (request_error 405))

pub parse_http_request : List ℕ → Handshake → Handshake × Reply
parse_http_request buffer h =
    let (len, lines) = parse_http_lines buffer in
    let parsed : Handshake × Reply = elim lines [
      | [] ↦ (h, threw (request_error 400))
      | line ∷ rest ↦ take_request_line line rest len h
    ] in
    if not (is_http_request buffer)
    then (h, threw (request_error 400))
    else if len == 0
    then (h, done 0)
    else parsed

module _ (sha1 : List ℕ → List ℕ) where
  pub compute_accept_key : List ℕ → List ℕ
  compute_accept_key key =
      base64_encode (sha1 (key ++ codes "258EAFA5-E914-47DA-95CA-C5AB0DC85B11"))

  pub generate_http_response : Handshake → List ℕ
  generate_http_response h =
      codes
        "HTTP/1.1 101 Switching Protocols\r\nServer: libdatachannel\r\nConnection: Upgrade\r\nUpgrade: websocket\r\nSec-WebSocket-Accept: "
      ++ (compute_accept_key h.key ++ (codes "\r\n" ++ generate_end h.protocols))

  pub check_accept : Headers → ℕ → Handshake → Reply
  check_accept headers len h = elim (find_header (codes "sec-websocket-accept") headers) [
    | none ↦ threw handshake_error
    | some accept ↦
        if bytes_eq accept (compute_accept_key h.key) then done len else threw handshake_error
  ]

  pub check_upgrade : Headers → ℕ → Handshake → Reply
  check_upgrade headers len h = elim (find_header (codes "upgrade") headers) [
    | none ↦ threw handshake_error
    | some upgrade ↦
        if is_websocket upgrade then check_accept headers len h else threw handshake_error
  ]

  -- The status line: a response code other than 101 is a `std::runtime_error`.
  pub check_status : List ℕ → List (List ℕ) → ℕ → Handshake → Reply
  check_status line lines len h =
      let (protocol, after) = read_word line in
      if read_unsigned after == 101
      then check_upgrade (parse_http_headers lines) len h
      else threw std_exception

  -- It changes nothing of the handshake.
  pub parse_http_response : List ℕ → Handshake → Reply
  parse_http_response buffer h =
      let (len, lines) = parse_http_lines buffer in
      let parsed : Reply = elim lines [
        | [] ↦ threw handshake_error
        | line ∷ rest ↦ check_status line rest len h
      ] in
      if len == 0 then done 0 else parsed
