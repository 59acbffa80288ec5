-- ===== src/Net.antt =====
-- What the proxy uses of package net: addresses and network interfaces.
pub mod Address
pub mod Interfaces
pub mod Upstream
pub mod Certificates
