-- ===== src/Capi/Calls.antt =====
-- All calls of the C interface of src/capi.cpp on one table, in any order, with their results.
use websocket_client.Common.{ℕ, Bool, Option, none, some, List, [], ◌∷◌}
use websocket_client.Config.{ProxyServer, Configuration, default_configuration}
use websocket_client.Capi.Int.{ℤ, err_success, err_invalid}
use websocket_client.Capi.Settings.{WsConfiguration, configuration}
use websocket_client.Capi.{
  Methods, Table, Kind, erase_all, after_open, wsc_set_user_pointer, wsc_set_callback,
  wsc_send_message, wsc_close, wsc_delete, wsc_delete_web_socket, wsc_max_message_size,
  wsc_get_buffered_amount, wsc_get_available_amount, wsc_set_buffered_amount_low_threshold,
}
use websocket_client.Capi.Receive.{wsc_receive_message}

-- How objects are made: `WebSocket(c)`, which may throw `std::invalid_argument`, and the proxy server.
pub record Makers (S : Type 0) : Type 0 where
  pub new_socket : Configuration → Option S
  pub new_proxy : List ℕ → Option ProxyServer

pub data Call : Type 0 where
  erase_objects : Call
  create : List ℕ → Call
  create_ex : Option (List ℕ) → Option WsConfiguration → Call
  set_user_pointer : ℕ → ℕ → Call
  set_callback : Kind → ℕ → Option ℕ → Call
  send_message : ℕ → Option (List ℕ) → ℤ → Call
  receive_message : ℕ → Bool → Option ℤ → ℕ → Call
  close delete delete_web_socket : ℕ → Call
  max_message_size get_buffered_amount get_available_amount : ℕ → Call
  set_low_threshold : ℕ → ℤ → Call

-- The handle that the call is about; creating is about none, and `wscCleanup` about all.
abbrev pub handle_of : Call → Option ℕ
handle_of erase_objects = none
handle_of (create url) = none
handle_of (create_ex url config) = none
handle_of (set_user_pointer id ptr) = none
handle_of (set_callback kind id cb) = some id
handle_of (send_message id bytes size) = some id
handle_of (receive_message id has_buffer size left) = some id
handle_of (close id) = some id
handle_of (delete id) = some id
handle_of (delete_web_socket id) = some id
handle_of (max_message_size id) = some id
handle_of (get_buffered_amount id) = some id
handle_of (get_available_amount id) = some id
handle_of (set_low_threshold id amount) = some id

module _ {S : Type 0} (m : Methods S) (k : Makers S) where
  -- The object is made, which may throw, and opened.
  unfoldable pub open_made : Option S → List ℕ → Table S → ℤ × Table S
  open_made none url t = (err_invalid, t)
  open_made (some s) url t = after_open m (m.open_url url s) t

  unfoldable pub open_configured : Option Configuration → List ℕ → Table S → ℤ × Table S
  open_configured none url t = (err_invalid, t)
  open_configured (some c) url t = open_made (k.new_socket c) url t

  abbrev pub wsc_create_web_socket : List ℕ → Table S → ℤ × Table S
  wsc_create_web_socket = open_made (k.new_socket default_configuration)

  unfoldable pub wsc_create_web_socket_ex :
      Option (List ℕ) → Option WsConfiguration → Table S → ℤ × Table S
  wsc_create_web_socket_ex none config t = (err_invalid, t)
  wsc_create_web_socket_ex (some url) none t = (err_invalid, t)
  wsc_create_web_socket_ex (some url) (some config) t =
      open_configured (configuration k.new_proxy config) url t

  -- What the call returns; nothing, for setting a pointer and `wscCleanup`, is written as success.
  unfoldable pub perform : Call → Table S → ℤ × Table S
  perform erase_objects t = (err_success, (erase_all m t).1)
  perform (create url) t = wsc_create_web_socket url t
  perform (create_ex url config) t = wsc_create_web_socket_ex url config t
  perform (set_user_pointer id ptr) t = (err_success, wsc_set_user_pointer m id ptr t)
  perform (set_callback kind id cb) t = wsc_set_callback m kind id cb t
  perform (send_message id bytes size) t = wsc_send_message m id bytes size t
  perform (receive_message id has_buffer size left) t =
      let (r, t') = wsc_receive_message m id has_buffer size left t in (r.code, t')
  perform (close id) t = wsc_close m id t
  perform (delete id) t = wsc_delete m id t
  perform (delete_web_socket id) t = wsc_delete_web_socket m id t
  perform (max_message_size id) t = wsc_max_message_size m id t
  perform (get_buffered_amount id) t = wsc_get_buffered_amount m id t
  perform (get_available_amount id) t = wsc_get_available_amount m id t
  perform (set_low_threshold id amount) t = wsc_set_buffered_amount_low_threshold m id amount t

  abbrev pub perform_all : List Call → Table S → Table S
  perform_all [] t = t
  perform_all (c ∷ calls) t = perform_all calls (perform c t).1
