-- ===== src/Tests/Upgrade.antt =====
-- The theorems on the upgrade at concrete inputs.
use websocket_client.Common.{
  ℕ, ◌≡◌, refl, List, [], ◌∷◌, ◌++◌, codes, length, bytes_eq, if◌then◌else◌, Avoids, avoids→Avoids,
}
use websocket_client.Utils.Tokens.{delimiter_text, write_tokens, implode}
use websocket_client.Http.Fields.{NoLeadingSpace}
use websocket_client.Handshake.Stream.{isspace}
use websocket_client.Handshake.{
  Handshake, done, threw, handshake_error, generate_key, generate_http_request,
  generate_http_response, parse_http_request, parse_http_response, compute_accept_key,
}
use websocket_client.Handshake.Request.Shape.{IsSendable}
use websocket_client.Handshake.Request.Accepted.{received, parse_http_request-generate_http_request}
use websocket_client.Handshake.Response.{parse_http_response-generate_http_response}

abbrev client : Handshake
client = record {
  host = codes "example.org";
  path = codes "/chat";
  protocols = codes "a" ∷ codes "b" ∷ [];
  key = codes "AQID";
}

abbrev server : Handshake
server = record { host = []; path = []; protocols = codes "a" ∷ []; key = codes "AQID" }

client-IsSendable : IsSendable client
unfolding isspace delimiter_text write_tokens implode
client-IsSendable = record {
  path_word = (refl, (refl, (refl, (refl, (refl, tt)))));
  path_some = λ e. cc;
  host_line = avoids→Avoids 10 (codes "example.org") refl;
  host_start = refl;
  protocols_tokens = (((refl, tt), ((refl, tt), tt)), λ e. cc);
  protocols_line = avoids→Avoids 10 (codes "a,b") refl;
  protocols_start = refl;
}

parse_http_request-generate_http_request_example :
    parse_http_request ((generate_http_request (1 ∷ 2 ∷ 3 ∷ []) client).1 ++ codes "more") server
    ≡ (
      received (generate_key (1 ∷ 2 ∷ 3 ∷ [])) client.host client.path client.protocols server,
      done (length (generate_http_request (1 ∷ 2 ∷ 3 ∷ []) client).1),
    )
parse_http_request-generate_http_request_example =
    parse_http_request-generate_http_request (1 ∷ 2 ∷ 3 ∷ []) client server client-IsSendable
      (codes "more")

abbrev identity : List ℕ → List ℕ
identity bytes = bytes

server_line : Avoids 10 (implode (codes "a" ∷ []) b',')
unfolding delimiter_text write_tokens implode
server_line = avoids→Avoids 10 (codes "a") refl

server_start : NoLeadingSpace (implode (codes "a" ∷ []) b',')
unfolding delimiter_text write_tokens implode
server_start = refl

parse_http_response-generate_http_response_example :
    parse_http_response identity (generate_http_response identity server ++ codes "more") client ≡ (
      if bytes_eq (compute_accept_key identity server.key) (compute_accept_key identity client.key)
      then done (length (generate_http_response identity server))
      else threw handshake_error)
parse_http_response-generate_http_response_example =
    parse_http_response-generate_http_response identity server server_line server_start client
      (codes "more")
