-- ===== src/Handshake/Request.antt =====
-- The request of src/impl/wshandshake.cpp, written and read.
pub mod Shape
pub mod Accepted
