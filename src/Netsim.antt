-- ===== src/Netsim.antt =====
-- The network simulator, pset3/netsim.hh: ports and channels.
pub mod Defs
pub mod Fifo
pub mod Order
mod Tests
pub mod Through
