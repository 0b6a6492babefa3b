-- ===== src/Backup.antt =====
-- The primary-backup service, pset3/pt-backup.cc.
pub mod Defs
pub mod Logs
pub mod Stage
pub mod Protocol
pub mod FromPrimary
pub mod FromBackup
pub mod BackupLogs
pub mod Failover
pub mod Progress
mod Tests
