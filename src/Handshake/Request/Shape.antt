-- ===== src/Handshake/Request/Shape.antt =====
-- The request of src/impl/wshandshake.cpp as a block of lines, and its header lines one by one.
use websocket_client.Common.{
  ◌≢◌, ℕ, ◌≡◌, refl, ap, ap₂, sym, true, false, List, [], ◌∷◌, ◌++◌, append_assoc, map, codes,
  Avoids, avoids, avoids→Avoids, ltb, All, All-append, ◌==◌, length,
}
use websocket_client.Utils.Base64.{base64_encode-Avoids}
use websocket_client.Utils.Tokens.{implode, AllTokens, LastNonempty}
use websocket_client.Handshake.Stream.{IsWord, not_space_line}
use websocket_client.Http.Lines.Complete.{IsLine, block}
use websocket_client.Http.Fields.{
  tolower, parse_http_headers, parse_http_header, parse_http_header-line, NoLeadingSpace,
}
use websocket_client.Handshake.{Handshake, generate_key, generate_end, generate_http_request}

abbrev pub protocol_lines : List (List ℕ) → List (List ℕ)
protocol_lines [] = []
protocol_lines (p ∷ ps) = (codes "Sec-WebSocket-Protocol: " ++ implode (p ∷ ps) b',') ∷ []

abbrev pub header_lines : List ℕ → Handshake → List (List ℕ)
header_lines key h =
    (codes "Host: " ++ h.host)
    ∷ codes "Connection: Upgrade"
    ∷ codes "Upgrade: websocket"
    ∷ codes "Sec-WebSocket-Version: 13"
    ∷ (codes "Sec-WebSocket-Key: " ++ key)
    ∷ protocol_lines h.protocols

abbrev pub request_line : List ℕ → List ℕ
request_line path = codes "GET " ++ (path ++ codes " HTTP/1.1")

pub generate_end-block :
    (protocols : List (List ℕ)) → generate_end protocols ≡ block (protocol_lines protocols)
unfolding generate_end
generate_end-block [] = refl
generate_end-block (p ∷ ps) =
    sym (append_assoc (codes "Sec-WebSocket-Protocol: ") (implode (p ∷ ps) b',') (codes "\r\n\r\n"))

-- The request is the block of its request line and header lines.
pub generate_http_request-block :
    (random : List ℕ) (h : Handshake)
    → (generate_http_request random h).1
      ≡ block (request_line h.path ∷ header_lines (generate_key random) h)
unfolding generate_http_request
generate_http_request-block random h = rw (generate_end-block h.protocols) (
    ap (λ s. codes "GET " ++ s)
      (sym (
        append_assoc h.path (codes " HTTP/1.1")
          (codes "\r\n" ++ block (header_lines (generate_key random) h)))))

-- Names that hold no comma, the last one not empty.
abbrev pub GoodProtocols : List (List ℕ) → Type 0
GoodProtocols [] = Unit
GoodProtocols (p ∷ ps) = AllTokens b',' p ps × LastNonempty p ps

pub word_line : (w : List ℕ) → IsWord w → Avoids 10 w
word_line [] h = tt
word_line (c ∷ w) h = (not_space_line c h.0, word_line w h.1)

-- What a host, a path and a list of protocols must be to stand in a request.
pub record IsSendable (h : Handshake) : Type 0 where
  pub path_word : IsWord h.path
  pub path_some : h.path ≢ []
  pub host_line : Avoids 10 h.host
  pub host_start : NoLeadingSpace h.host
  pub protocols_tokens : GoodProtocols h.protocols
  pub protocols_line : Avoids 10 (implode h.protocols b',')
  pub protocols_start : NoLeadingSpace (implode h.protocols b',')

-- The headers that the server reads from such a request.
abbrev pub protocol_headers : List (List ℕ) → List (List ℕ × List ℕ)
protocol_headers [] = []
protocol_headers (p ∷ ps) = (codes "sec-websocket-protocol", implode (p ∷ ps) b',') ∷ []

abbrev pub read_headers : List ℕ → List ℕ → List (List ℕ) → List (List ℕ × List ℕ)
read_headers key host protocols =
    (codes "host", host)
    ∷ (codes "connection", codes "Upgrade")
    ∷ (codes "upgrade", codes "websocket")
    ∷ (codes "sec-websocket-version", codes "13")
    ∷ (codes "sec-websocket-key", key)
    ∷ protocol_headers protocols

pub generate_key_line : (random : List ℕ) → Avoids 10 (generate_key random)
unfolding generate_key
generate_key_line random = base64_encode-Avoids 10 random refl refl refl

generate_key_spaces : (random : List ℕ) → Avoids 32 (generate_key random)
unfolding generate_key
generate_key_spaces random = base64_encode-Avoids 32 random refl refl refl

pub NoLeadingSpace-of_Avoids : (s : List ℕ) → Avoids 32 s → NoLeadingSpace s
NoLeadingSpace-of_Avoids [] h = tt
NoLeadingSpace-of_Avoids (c ∷ s) h = h.0

-- A literal beginning, and a text with no line end.
pub prefixed-IsLine :
    (name value : List ℕ)
    → avoids 10 name ≡ true
    → ltb 0 (length name) ≡ true
    → Avoids 10 value
    → IsLine (name ++ value)
prefixed-IsLine [] value h k a = cc
prefixed-IsLine (c ∷ name) value h k a = (
  λ e. cc,
  All-append (λ x. (x == 10) ≡ false) (c ∷ name) value (avoids→Avoids 10 (c ∷ name) h) a,
)

pub literal-IsLine :
    (name : List ℕ) → avoids 10 name ≡ true → ltb 0 (length name) ≡ true → IsLine name
literal-IsLine [] h k = cc
literal-IsLine (c ∷ name) h k = (λ e. cc, avoids→Avoids 10 (c ∷ name) h)

pub protocol_lines-IsLine :
    (ps : List (List ℕ)) → Avoids 10 (implode ps b',') → All IsLine (protocol_lines ps)
protocol_lines-IsLine [] a = tt
protocol_lines-IsLine (p ∷ ps) a =
    (prefixed-IsLine (codes "Sec-WebSocket-Protocol: ") (implode (p ∷ ps) b',') refl refl a, tt)

pub header :
    (key value : List ℕ)
    → avoids b':' key ≡ true
    → NoLeadingSpace value
    → parse_http_header (key ++ (b':' ∷ b' ' ∷ value)) ≡ (map tolower key, value)
header key value h = parse_http_header-line key value (avoids→Avoids b':' key h)

pub read_protocols :
    (ps : List (List ℕ))
    → NoLeadingSpace (implode ps b',')
    → parse_http_headers (protocol_lines ps) ≡ protocol_headers ps
unfolding parse_http_headers tolower
read_protocols [] a = refl
read_protocols (p ∷ ps) a =
    ap (λ x. x ∷ []) (header (codes "Sec-WebSocket-Protocol") (implode (p ∷ ps) b',') refl a)

module _ (random : List ℕ) (h : Handshake) (sendable : IsSendable h) where
  -- Each line of the request can stand in a block.
  pub request_lines-IsLine : All IsLine (request_line h.path ∷ header_lines (generate_key random) h)
  request_lines-IsLine = (
    prefixed-IsLine (codes "GET ") (h.path ++ codes " HTTP/1.1") refl refl (
        All-append (λ x. (x == 10) ≡ false) h.path (codes " HTTP/1.1")
          (word_line h.path sendable.path_word) (avoids→Avoids 10 (codes " HTTP/1.1") refl)),
    (
      prefixed-IsLine (codes "Host: ") h.host refl refl sendable.host_line,
      (
        literal-IsLine (codes "Connection: Upgrade") refl refl,
        (
          literal-IsLine (codes "Upgrade: websocket") refl refl,
          (
            literal-IsLine (codes "Sec-WebSocket-Version: 13") refl refl,
            (
              prefixed-IsLine (codes "Sec-WebSocket-Key: ") (generate_key random) refl refl
                  (generate_key_line random),
              protocol_lines-IsLine h.protocols sendable.protocols_line,
            ),
          ),
        ),
      ),
    ),
  )

  -- The server reads back each header, its name in lower case.
  pub parse_http_headers-request :
      parse_http_headers (header_lines (generate_key random) h)
      ≡ read_headers (generate_key random) h.host h.protocols
  unfolding parse_http_headers tolower
  parse_http_headers-request = ap₂ ◌∷◌ (header (codes "Host") h.host refl sendable.host_start) (
      ap₂ ◌∷◌ (header (codes "Connection") (codes "Upgrade") refl refl) (
        ap₂ ◌∷◌ (header (codes "Upgrade") (codes "websocket") refl refl) (
          ap₂ ◌∷◌ (header (codes "Sec-WebSocket-Version") (codes "13") refl refl) (
            ap₂ ◌∷◌
              (header (codes "Sec-WebSocket-Key") (generate_key random) refl
                (NoLeadingSpace-of_Avoids (generate_key random) (generate_key_spaces random)))
              (read_protocols h.protocols sendable.protocols_start)))))
