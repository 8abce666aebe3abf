-- ===== src/Mux.antt =====
-- common/mux: several sessions in one connection.
pub mod Session
