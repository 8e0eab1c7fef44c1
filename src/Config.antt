-- ===== src/Config.antt =====
-- The configuration of include/configuration.hpp and src/configuration.cpp, with the URL of a proxy.
use websocket_client.Common.{
  ℕ, ◌%◌, ◌^◌, Bool, false, ◌||◌, Option, none, some, List, [], ◌∷◌, if◌then◌else◌, ◌==◌, bytes_eq,
  codes, ◌>>=◌,
}
use websocket_client.Url.{Match, regex_match}

pub data ProxyType : Type 0 where
  http socks5 : ProxyType

pub record ProxyServer : Type 0 where
  pub type : ProxyType
  pub hostname : List ℕ
  pub port : ℕ
  pub username : Option (List ℕ)
  pub password : Option (List ℕ)

-- `opt` of `parse_url`: the groups 2, 6, 8, 10 and 12, without the empty ones.
pub record UrlGroups : Type 0 where
  pub scheme : Option (List ℕ)
  pub username : Option (List ℕ)
  pub password : Option (List ℕ)
  pub hostname : List ℕ
  pub service : Option (List ℕ)

pub record Configuration : Type 0 where
  pub disable_tls_verification : Bool
  pub proxy_server : Option ProxyServer
  pub protocols : List (List ℕ)
  pub connection_timeout : Option ℕ
  pub ping_interval : Option ℕ
  pub max_outstanding_pings : Option ℕ
  pub ca_certificate_pem_file : Option (List ℕ)
  pub certificate_pem_file : Option (List ℕ)
  pub key_pem_file : Option (List ℕ)
  pub key_pem_pass : Option (List ℕ)
  pub max_message_size : Option ℕ

abbrev pub default_configuration : Configuration
default_configuration = record {
  disable_tls_verification = false;
  proxy_server = none;
  protocols = [];
  connection_timeout = none;
  ping_interval = none;
  max_outstanding_pings = none;
  ca_certificate_pem_file = none;
  certificate_pem_file = none;
  key_pem_file = none;
  key_pem_pass = none;
  max_message_size = none;
}

abbrev pub value_or : List ℕ → Option (List ℕ) → List ℕ
value_or d none = d
value_or d (some s) = s

-- The two loops on the brackets of an IPv6 literal.
abbrev pub strip_front : List ℕ → List ℕ
strip_front [] = []
strip_front (c ∷ s) = let rest = strip_front s in if c == 91 then rest else c ∷ s

-- `pop_back` as long as the last character is a bracket.
abbrev pub strip_back : List ℕ → List ℕ
strip_back [] = []
strip_back (c ∷ s) = elim (strip_back s) [
  | [] ↦ if c == 93 then [] else c ∷ []
  | d ∷ rest ↦ c ∷ d ∷ rest
]

abbrev pub proxy_type : List ℕ → Option ProxyType
proxy_type s =
    if bytes_eq s (codes "http") || bytes_eq s (codes "HTTP")
    then some ProxyType.http
    else if bytes_eq s (codes "socks5") || bytes_eq s (codes "SOCKS5")
    then some ProxyType.socks5
    else none

abbrev pub default_port : ProxyType → List ℕ
default_port ProxyType.http = codes "3128"
default_port ProxyType.socks5 = codes "1080"

-- A group that is empty counts as absent.
abbrev pub nonempty : Option (List ℕ) → Option (List ℕ)
nonempty none = none
nonempty (some []) = none
nonempty (some (c ∷ s)) = some (c ∷ s)

-- No groups without a hostname.
unfoldable pub groups_of : Match → List ℕ → Option UrlGroups
groups_of m [] = none
groups_of m (c ∷ hostname) = some (record {
  scheme = nonempty m.scheme;
  username = nonempty m.username;
  password = nonempty m.password;
  hostname = c ∷ hostname;
  service = nonempty m.service;
})

unfoldable pub parse_url : List ℕ → Option UrlGroups
parse_url url = do m ← regex_match url; groups_of m m.hostname

-- `ProxyServer(url)`; `none` is `std::invalid_argument`. `stoul` is the standard library's, `none`
-- where it throws.
unfoldable pub proxy_server : (stoul : List ℕ → Option ℕ) → List ℕ → Option ProxyServer
proxy_server stoul url = do
  g ← parse_url url
  type ← proxy_type (value_or (codes "http") g.scheme)
  port ← stoul (value_or (default_port type) g.service)
  some (record {
    type = type;
    hostname = strip_back (strip_front g.hostname);
    port = port % 2 ^ 16;
    username = g.username;
    password = g.password;
  })
