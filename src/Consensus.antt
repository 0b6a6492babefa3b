-- ===== src/Consensus.antt =====
-- Chandra-Toueg consensus: pset2/ctconsensus.cc and pset2/ctconsensus_msgs.hh.
pub mod Msgs
pub mod Server
pub mod Net
pub mod Cases
pub mod Validity
pub mod Colors
pub mod Once
pub mod OnceServer
pub mod OnceHeld
pub mod OnceNet
pub mod OnceStart
pub mod World
pub mod Quorums
pub mod OneColor
pub mod Proposing
pub mod Facts
pub mod Moves
pub mod Steps
pub mod Votes
pub mod Proposals
pub mod Takes
pub mod Counting
pub mod Handles
pub mod Invariant
pub mod Start
pub mod Agreement
pub mod Counts
pub mod Nancy
mod Tests
