-- ===== src/Capi/Settings.antt =====
-- `wscCreateWebSocketEx` of src/capi.cpp up to the creation: from the C structure to the configuration.
use websocket_client.Common.{ℕ, zero, suc, Bool, Option, none, some, List, ◌>>=◌}
use websocket_client.Config.{ProxyServer, Configuration}
use websocket_client.Capi.Int.{ℤ, pos, negsuc}

-- `wscWsConfiguration`; `protocols_count` is the length of `protocols`.
pub record WsConfiguration : Type 0 where
  pub disable_tls_verification : Bool
  pub proxy_server : Option (List ℕ)
  pub protocols : List (List ℕ)
  pub connection_timeout_ms : ℤ
  pub ping_interval_ms : ℤ
  pub max_outstanding_pings : ℤ
  pub max_message_size : ℤ

-- Positive sets it, negative sets it to 0, which disables; 0 keeps the default.
abbrev pub setting : ℤ → Option ℕ
setting (pos zero) = none
setting (pos (suc n)) = some (suc n)
setting (negsuc n) = some 0

abbrev pub size_setting : ℤ → Option ℕ
size_setting (pos zero) = none
size_setting (pos (suc n)) = some (suc n)
size_setting (negsuc n) = none

-- `proxyServer.emplace`
abbrev pub proxy_setting :
    (List ℕ → Option ProxyServer) → Option (List ℕ) → Option (Option ProxyServer)
proxy_setting new_proxy none = some none
proxy_setting new_proxy (some url) = new_proxy url >>= λ p. some (some p)

-- `none` where the constructor of the proxy server throws `std::invalid_argument`.
unfoldable pub configuration :
    (List ℕ → Option ProxyServer) → WsConfiguration → Option Configuration
configuration new_proxy config = do
  proxy ← proxy_setting new_proxy config.proxy_server
  some (record {
    disable_tls_verification = config.disable_tls_verification;
    proxy_server = proxy;
    protocols = config.protocols;
    connection_timeout = setting config.connection_timeout_ms;
    ping_interval = setting config.ping_interval_ms;
    max_outstanding_pings = setting config.max_outstanding_pings;
    ca_certificate_pem_file = none;
    certificate_pem_file = none;
    key_pem_file = none;
    key_pem_pass = none;
    max_message_size = size_setting config.max_message_size;
  })
