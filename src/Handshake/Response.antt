-- ===== src/Handshake/Response.antt =====
-- `parseHttpResponse` on what `generateHttpResponse` writes, in src/impl/wshandshake.cpp.
use websocket_client.Common.{
  ℕ, ◌≡◌, refl, ap, ap₂, ◌∙◌, arith, true, false, List, ◌∷◌, ◌++◌, codes, bytes_eq, Avoids, avoids,
  All, ◌==◌, length, if◌then◌else◌,
}
use websocket_client.Utils.Base64.{base64_encode-Avoids}
use websocket_client.Utils.Tokens.{implode}
use websocket_client.Http.Lines.{parse_http_lines}
use websocket_client.Http.Lines.Complete.{block, IsLine, parse_http_lines-block}
use websocket_client.Http.Fields.{tolower, find_header, parse_http_headers, NoLeadingSpace}
use websocket_client.Handshake.Stream.{read_word, read_unsigned}
use websocket_client.Handshake.{
  Handshake, done, threw, handshake_error, compute_accept_key, generate_http_response, is_websocket,
  check_accept, check_upgrade, check_status, parse_http_response,
}
use websocket_client.Handshake.Request.Shape.{
  protocol_lines, protocol_headers, generate_end-block, prefixed-IsLine, literal-IsLine,
  protocol_lines-IsLine, header, read_protocols, NoLeadingSpace-of_Avoids,
}

abbrev status_line : List ℕ
status_line = codes "HTTP/1.1 101 Switching Protocols"

abbrev accept_lines : List ℕ → List (List ℕ) → List (List ℕ)
accept_lines accept protocols =
    codes "Server: libdatachannel"
    ∷ codes "Connection: Upgrade"
    ∷ codes "Upgrade: websocket"
    ∷ (codes "Sec-WebSocket-Accept: " ++ accept)
    ∷ protocol_lines protocols

abbrev accept_headers : List ℕ → List (List ℕ) → List (List ℕ × List ℕ)
accept_headers accept protocols =
    (codes "server", codes "libdatachannel")
    ∷ (codes "connection", codes "Upgrade")
    ∷ (codes "upgrade", codes "websocket")
    ∷ (codes "sec-websocket-accept", accept)
    ∷ protocol_headers protocols

-- The status line is that of a 101.
status_is_101 : read_unsigned (read_word status_line).1 ≡ 101
unfolding read_word read_unsigned
status_is_101 = refl

parse_of_lines :
    (sha1 : List ℕ → List ℕ) (buffer line : List ℕ) (lines : List (List ℕ)) (len : ℕ)
    (client : Handshake)
    → parse_http_lines buffer ≡ (len, line ∷ lines)
    → (len == 0) ≡ false
    → parse_http_response sha1 buffer client ≡ check_status sha1 line lines len client
unfolding parse_http_response
parse_of_lines sha1 buffer line lines len client f g =
    rw (parse_http_response, f, g)
      (ap (λ (t : ℕ × List (List ℕ)). check_status sha1 line lines t.0 client) f)

module _ (sha1 : List ℕ → List ℕ) (server : Handshake)
    (line : Avoids 10 (implode server.protocols b','))
    (start : NoLeadingSpace (implode server.protocols b',')) where
  abbrev accept_key : List ℕ
  accept_key = compute_accept_key sha1 server.key

  accept_key-Avoids :
      (n : ℕ)
      → avoids n (codes "ABCDEFGHIJKLMNOPQRSTUVWXYZabcdefghijklmnopqrstuvwxyz0123456789+/") ≡ true
      → (0 == n) ≡ false
      → (b'=' == n) ≡ false
      → Avoids n accept_key
  unfolding compute_accept_key
  accept_key-Avoids n h nul pad = base64_encode-Avoids n _ h nul pad

  generate_http_response-block :
      generate_http_response sha1 server
      ≡ block (status_line ∷ accept_lines accept_key server.protocols)
  unfolding generate_http_response
  generate_http_response-block = rw (generate_end-block server.protocols)

  accept_lines-IsLine : All IsLine (status_line ∷ accept_lines accept_key server.protocols)
  accept_lines-IsLine = (
    literal-IsLine status_line refl refl,
    (
      literal-IsLine (codes "Server: libdatachannel") refl refl,
      (
        literal-IsLine (codes "Connection: Upgrade") refl refl,
        (
          literal-IsLine (codes "Upgrade: websocket") refl refl,
          (
            prefixed-IsLine (codes "Sec-WebSocket-Accept: ") accept_key refl refl
                (accept_key-Avoids 10 refl refl refl),
            protocol_lines-IsLine server.protocols line,
          ),
        ),
      ),
    ),
  )

  read_accept_headers :
      parse_http_headers (accept_lines accept_key server.protocols)
      ≡ accept_headers accept_key server.protocols
  unfolding parse_http_headers tolower
  read_accept_headers = ap₂ ◌∷◌ (header (codes "Server") (codes "libdatachannel") refl refl) (
      ap₂ ◌∷◌ (header (codes "Connection") (codes "Upgrade") refl refl) (
        ap₂ ◌∷◌ (header (codes "Upgrade") (codes "websocket") refl refl) (
          ap₂ ◌∷◌
            (header (codes "Sec-WebSocket-Accept") accept_key refl
              (NoLeadingSpace-of_Avoids accept_key (accept_key-Avoids 32 refl refl refl)))
            (read_protocols server.protocols start))))

  check_headers :
      (len : ℕ) (client : Handshake)
      → check_upgrade sha1 (accept_headers accept_key server.protocols) len client ≡ (
          if bytes_eq accept_key (compute_accept_key sha1 client.key)
          then done len
          else threw handshake_error)
  unfolding check_upgrade check_accept find_header is_websocket tolower
  check_headers len client = refl

  check_lines :
      (len : ℕ) (client : Handshake)
      → check_status sha1 status_line (accept_lines accept_key server.protocols) len client ≡ (
          if bytes_eq accept_key (compute_accept_key sha1 client.key)
          then done len
          else threw handshake_error)
  unfolding check_status
  check_lines len client =
      rw (check_status, status_is_101, read_accept_headers) (check_headers len client)

  -- A client that gets the whole response of a server whose protocols, joined by commas, hold no
  -- newline and start with no space, with any bytes behind it, consumes exactly the response if the
  -- server computed the accept key from the client's own key, or one with the same accept key, and
  -- otherwise throws a handshake error.
  pub parse_http_response-generate_http_response :
      (client : Handshake) (more : List ℕ)
      → let response = generate_http_response sha1 server in
        parse_http_response sha1 (response ++ more) client ≡ (
          if bytes_eq accept_key (compute_accept_key sha1 client.key)
          then done (length response)
          else threw handshake_error)
  parse_http_response-generate_http_response client more =
      let lines = accept_lines accept_key server.protocols in
      let whole = block (status_line ∷ lines) in
      rw generate_http_response-block (
        parse_of_lines sha1 (whole ++ more) status_line lines (length whole) client
          (parse_http_lines-block (status_line ∷ lines) more accept_lines-IsLine) (ground arith)
        ∙ check_lines (length whole) client)
