-- ===== src/Pancy.antt =====
-- The Pancy database: pset3/pancy_msgs.hh, pset3/pancydb.hh and pset3/pancydb.cc.
pub mod Map
pub mod Msgs
pub mod Db
pub mod Recent
pub mod Invariant
pub mod Effect
pub mod Preserve
pub mod Spec
pub mod Refinement
pub mod Versions
pub mod Lock
pub mod Diff
pub mod DiffZero
pub mod Direct
mod Tests
