-- ===== src/Mux.antt =====
-- xray-go/common/mux: many sessions over one connection.
pub mod Session
pub mod Frame
pub mod Writer
