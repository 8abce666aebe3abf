-- ===== src/Dns.antt =====
-- app/dns
pub mod Fakedns
