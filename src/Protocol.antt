-- ===== src/Protocol.antt =====
-- common/protocol: what the proxy protocols share.
pub mod Servers
pub mod Address
