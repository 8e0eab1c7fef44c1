-- ===== src/Tests/Addresses.antt =====
-- Reading URLs at concrete inputs.
use websocket_client.Common.{◌≡◌, refl, true, false, none, some, codes, []}
use websocket_client.Url.{
  Match, span, strip, optional, scheme_of, take_scheme, take_slashes, user_password, user_of,
  take_user, whole, regex_match, text,
}
use websocket_client.Url.RoundTrip.{IsCanonical, regex_match-text}
use websocket_client.Utils.Url.{url_decode, isxdigit}
use websocket_client.Config.{default_configuration}
use websocket_client.Handshake.{Handshake}
use websocket_client.Client.{Client, Env}
use websocket_client.Client.Open.{
  Address, no_certificate, created, read_url, read_match, secure_scheme, address_of, dialled_name,
}
use websocket_client.Capi.Socket.{Socket}
use websocket_client.Client.Open.Whole.{Opens, open_websocket-Opens}

-- An IPv6 literal is cut at its first colon.
ipv6_literal :
    read_url (codes "ws://[::1]:80/")
    ≡ some (record {
      secure = false;
      host = codes "[::1]:80";
      hostname = codes "[";
      service = codes ":1]:80";
      path = codes "/";
    })
unfolding read_url regex_match span strip optional scheme_of take_scheme take_slashes user_password
    user_of take_user whole read_match secure_scheme address_of dialled_name url_decode isxdigit
ipv6_literal = refl

-- An `@` in the path moves the host behind it.
at_sign :
    read_url (codes "wss://a.org/x@b.org/c")
    ≡ some (record {
      secure = true;
      host = codes "b.org";
      hostname = codes "b.org";
      service = codes "443";
      path = codes "/c";
    })
unfolding read_url regex_match span strip optional scheme_of take_scheme take_slashes user_password
    user_of take_user whole read_match secure_scheme address_of dialled_name url_decode isxdigit
at_sign = refl

abbrev env : Env
env = record { start_throws = λ n. false; stop_disconnects = λ n. false }

abbrev parts : Match
parts = record {
  scheme = some (codes "wss");
  slashes = codes "//";
  username = some (codes "me");
  password = none;
  hostname = codes "a.org";
  service = some (codes "81");
  path = codes "/p";
  query = some (codes "q");
  fragment = none;
}

parts-IsCanonical : IsCanonical parts
parts-IsCanonical = record {
  scheme_named = (refl, (refl, (refl, tt)));
  two_slashes = refl;
  login = ((refl, (refl, tt)), tt);
  hostname_class = (refl, (refl, (refl, (refl, (refl, tt)))));
  service_class = (refl, (refl, tt));
  path_class = (refl, (refl, tt));
  path_rooted = refl;
  query_class = (refl, tt);
  fragment_class = tt;
}

abbrev client : Client
client = created default_configuration no_certificate

abbrev server : Handshake
server = record { host = []; path = []; protocols = []; key = [] }

abbrev address : Address
address = address_of true parts

regex_match-text_example : regex_match (text parts) ≡ some parts
regex_match-text_example = regex_match-text parts parts-IsCanonical

open_websocket-Opens_example : Opens env default_configuration (codes "http://a.org/") client
open_websocket-Opens_example =
    open_websocket-Opens env default_configuration (codes "http://a.org/") client

short :
    regex_match (codes "ws://a")
    ≡ some (record parts {
      scheme = some (codes "ws");
      username = none;
      hostname = codes "a";
      service = none;
      path = [];
      query = none;
    })
unfolding regex_match span strip optional scheme_of take_scheme take_slashes user_password user_of
    take_user whole
short = refl
