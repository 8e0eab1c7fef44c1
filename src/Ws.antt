-- ===== src/Ws.antt =====
-- The class `WsTransport` of src/impl/wstransport.cpp: framing, the handlers, and their properties.
pub mod Frame
pub mod Core
pub mod Send
pub mod Receive
pub mod Incoming
pub mod Chunks
pub mod Limits
pub mod Closing
pub mod Wire
pub mod Exchange
