-- ===== src/Service.antt =====
-- The other services: pset3/pt-single.cc, and pset3/pt-paxos.cc as it is handed out.
pub mod Single
pub mod Replica
mod Tests
