-- ===== src/Utils.antt =====
-- src/impl/utils.cpp: the pure text helpers. Random numbers and thread names are not here.
pub mod Base64
pub mod Url
pub mod Tokens
