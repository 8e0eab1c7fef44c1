-- ===== src/Tests/Text.antt =====
-- The theorems on texts, base64 and URLs at concrete inputs.
use websocket_client.Common.{
  ℕ, ◌≤◌, ◌≡◌, ◌≢◌, refl, arith, Bool, some, [], ◌∷◌, ◌++◌, codes, length, ◌==◌,
}
use websocket_client.Utils.Base64.{base64_encode}
use websocket_client.Utils.Base64.RoundTrip.{base64_decode, base64_decode-base64_encode}
use websocket_client.Utils.Tokens.{implode, explode, explode-implode}
use websocket_client.Http.Lines.{
  find_newline, strip_return, parse_http_lines_loop, parse_http_lines,
}
use websocket_client.Http.Lines.Complete.{block, parse_http_lines-block}
use websocket_client.Http.Lines.Prefix.{parse_http_lines_stable}

base64_decode-base64_encode_example :
    base64_decode (base64_encode (255 ∷ 0 ∷ 17 ∷ 200 ∷ [])) ≡ some (255 ∷ 0 ∷ 17 ∷ 200 ∷ [])
base64_decode-base64_encode_example =
    base64_decode-base64_encode (255 ∷ 0 ∷ 17 ∷ 200 ∷ [])
      (omega arith, (omega arith, (omega arith, (omega arith, tt))))

abbrev is_a : ℕ → Bool
is_a c = c == b'a'

explode-implode_example :
    explode (implode (codes "a" ∷ [] ∷ codes "b" ∷ []) b',') b',' ≡ codes "a" ∷ [] ∷ codes "b" ∷ []
explode-implode_example =
    explode-implode b',' (codes "a") ([] ∷ codes "b" ∷ []) refl ((refl, tt), (tt, ((refl, tt), tt)))
      (λ e. cc)

parse_http_lines-block_example :
    parse_http_lines (block (codes "GET" ∷ codes "Host" ∷ []) ++ codes "more")
    ≡ (length (block (codes "GET" ∷ codes "Host" ∷ [])), codes "GET" ∷ codes "Host" ∷ [])
parse_http_lines-block_example =
    parse_http_lines-block (codes "GET" ∷ codes "Host" ∷ []) (codes "more")
      ((λ e. cc, (refl, (refl, (refl, tt)))), ((λ e. cc, (refl, (refl, (refl, (refl, tt))))), tt))

found : (parse_http_lines (codes "a\n\n")).0 ≢ 0
unfolding find_newline strip_return parse_http_lines_loop parse_http_lines
found = λ e. omega (arith, e)

parse_http_lines_stable_example :
    ((parse_http_lines (codes "a\n\n")).0 ≤ 3)
    × (parse_http_lines (codes "a\n\n" ++ codes "b\n") ≡ parse_http_lines (codes "a\n\n"))
parse_http_lines_stable_example = parse_http_lines_stable (codes "a\n\n") (codes "b\n") found
