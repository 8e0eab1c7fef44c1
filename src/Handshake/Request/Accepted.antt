-- ===== src/Handshake/Request/Accepted.antt =====
-- `parseHttpRequest` on what `generateHttpRequest` writes, in src/impl/wshandshake.cpp.
use websocket_client.Common.{
  ℕ, ◌≡◌, ◌≢◌, refl, ap, ◌∙◌, arith, true, false, List, [], ◌∷◌, ◌++◌, codes, ◌==◌, length,
}
use websocket_client.Utils.Tokens.{explode-implode}
use websocket_client.Http.Lines.{is_http_request, parse_http_lines}
use websocket_client.Http.Lines.Complete.{block, parse_http_lines-block}
use websocket_client.Http.Fields.{tolower, find_header}
use websocket_client.Handshake.Stream.{
  IsWord, read_word, read_word-append, read_word-space, isspace,
}
use websocket_client.Handshake.{
  Handshake, done, generate_key, generate_http_request, is_websocket, take_key, take_upgrade,
  take_host, take_request_line, parse_http_request,
}
use websocket_client.Handshake.Request.Shape.{
  IsSendable, GoodProtocols, request_line, header_lines, read_headers, generate_http_request-block,
  request_lines-IsLine, parse_http_headers-request,
}

-- What the server knows after a request: it keeps its own protocols if none were offered.
pub received : List ℕ → List ℕ → List ℕ → List (List ℕ) → Handshake → Handshake
received key host path [] server = record server { host = host; path = path; key = key }
received key host path (p ∷ ps) server = record server {
  host = host;
  path = path;
  key = key;
  protocols = p ∷ ps;
}

read_request_line :
    (path : List ℕ)
    → IsWord path
    → path ≢ []
    → (read_word (request_line path) ≡ (codes "GET", b' ' ∷ path ++ codes " HTTP/1.1"))
      × (read_word (b' ' ∷ path ++ codes " HTTP/1.1") ≡ (path, codes " HTTP/1.1"))
read_request_line [] h k = absurd (k refl)
read_request_line (c ∷ path) h k = (
  read_word-append b'G' (codes "ET") (c ∷ path ++ codes " HTTP/1.1") get_word,
  read_word-space (c ∷ path ++ codes " HTTP/1.1") ∙ read_word-append c path (codes "HTTP/1.1") h,
)
  where
    get_word : IsWord (codes "GET")
    get_word = unfold isspace in (refl, (refl, (refl, tt)))

take_key-read :
    (key host path : List ℕ) (ps : List (List ℕ)) (server : Handshake) (len : ℕ)
    → GoodProtocols ps
    → take_key (read_headers key host ps) len (record server { host = host; path = path })
      ≡ (received key host path ps server, done len)
unfolding take_key received find_header
take_key-read key host path [] server len good = refl
take_key-read key host path (p ∷ ps) server len good =
    rw (take_key, explode-implode b',' p ps refl good.0 good.1)

-- The headers of a request carry it from the host to the key.
take_host-read :
    (key host path : List ℕ) (ps : List (List ℕ)) (server : Handshake) (len : ℕ)
    → GoodProtocols ps
    → take_host (read_headers key host ps) len (record server { path = path })
      ≡ (received key host path ps server, done len)
unfolding take_host take_upgrade find_header is_websocket tolower
take_host-read key host path ps server len good = take_key-read key host path ps server len good

parse_of_lines :
    (buffer line : List ℕ) (lines : List (List ℕ)) (len : ℕ) (server : Handshake)
    → is_http_request buffer ≡ true
    → parse_http_lines buffer ≡ (len, line ∷ lines)
    → (len == 0) ≡ false
    → parse_http_request buffer server ≡ take_request_line line lines len server
unfolding parse_http_request
parse_of_lines buffer line lines len server e f g =
    rw (parse_http_request, e, f, g)
      (ap (λ (t : ℕ × List (List ℕ)). take_request_line line lines t.0 server) f)

module _ (random : List ℕ) (h server : Handshake) (sendable : IsSendable h) where
  take_request_line-read :
      (len : ℕ)
      → take_request_line (request_line h.path) (header_lines (generate_key random) h) len server
        ≡ (received (generate_key random) h.host h.path h.protocols server, done len)
  unfolding take_request_line
  take_request_line-read len =
      let (one, two) = read_request_line h.path sendable.path_word sendable.path_some in
      rw (take_request_line, one, two, parse_http_headers-request random h sendable)
        (take_host-read (generate_key random) h.host h.path h.protocols server len
          sendable.protocols_tokens)

  starts_with_get : (rest : List ℕ) → is_http_request (codes "GET " ++ rest) ≡ true
  unfolding is_http_request
  starts_with_get rest = refl

  -- A server that gets a whole request, with any bytes behind it, consumes exactly the request, and
  -- its handshake then has the client's host, path and fresh key, and the client's protocols
  -- if there were any. The path is a word that is not empty; the host and the protocols, joined by
  -- commas, hold no newline and start with no space; and no protocol holds a comma, the last one
  -- not being empty.
  pub parse_http_request-generate_http_request :
      (more : List ℕ)
      → let request = (generate_http_request random h).1 in
        parse_http_request (request ++ more) server
        ≡ (received (generate_key random) h.host h.path h.protocols server, done (length request))
  parse_http_request-generate_http_request more =
      let lines = header_lines (generate_key random) h in
      let whole = block (request_line h.path ∷ lines) in
      rw (generate_http_request-block random h) (
        parse_of_lines (whole ++ more) (request_line h.path) lines (length whole) server
          (starts_with_get (h.path ++ codes " HTTP/1.1" ++ (codes "\r\n" ++ block lines) ++ more))
          (parse_http_lines-block (request_line h.path ∷ lines) more
            (request_lines-IsLine random h sendable))
          (ground arith)
        ∙ take_request_line-read (length whole))
