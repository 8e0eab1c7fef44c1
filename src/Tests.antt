-- ===== src/Tests.antt =====
-- The theorems at concrete inputs.
mod Addresses
mod Certificates
mod Channels
mod Text
mod Upgrade
mod Sockets
mod Engine
mod Interface
mod Services
mod Secure
mod Pools
