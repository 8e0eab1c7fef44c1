-- ===== src/Ws/Closing.antt =====
-- Closing: `WsTransport::close` in src/impl/wstransport.cpp.
use websocket_client.Common.{◌≡◌, arith}
use websocket_client.Ws.Core.{Env, Ws, change_state, outgoing}
use websocket_client.Ws.Send.{close, send_frame, write_back}

-- A second close does nothing at all, whether the first one sent a close frame, could not send it,
-- or did nothing: at most one close frame is sent and one timer started.
pub close_twice : (env env' : Env) (w : Ws) → close env' (close env w) ≡ close env w
unfolding close send_frame outgoing change_state write_back
close_twice env env' w = ground arith
