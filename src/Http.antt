-- ===== src/Http.antt =====
-- src/impl/http.cpp: the start of a request, the header block, and its fields.
pub mod Lines
pub mod Fields
