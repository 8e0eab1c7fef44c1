-- ===== src/Ws/Chunks.antt =====
-- `WsTransport::incoming` of src/impl/wstransport.cpp on bytes that arrive in several messages.
pub mod Extend
pub mod Loop
pub mod Split
pub mod Whole
