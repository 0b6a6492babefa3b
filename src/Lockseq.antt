-- ===== src/Lockseq.antt =====
-- The lock-sequence test clients: pset3/lockseq_model.hh and pset3/lockseq_model.cc.
pub mod Digits
pub mod Keys
pub mod Check
mod Tests
pub mod Strings
pub mod Accepts
