-- ===== src/Client.antt =====
-- client_model, the clients' side of the channels: pset3/client_model.hh and pset3/client_model.cc.
pub mod Defs
pub mod Scan
mod Tests
