-- ===== src/Backup/Protocol.antt =====
-- The protocol between primary() and backup() of pset3/pt-backup.cc, as long as it is not `bogus`.
use cs2620_s26_psets.Base.{◌≤◌, ◌≡◌, ◌≢◌, arith, All}
use cs2620_s26_psets.Backup.Defs.{
  PtBackupInstance, backup_client, backup_timeout, assertion_failed, backup_respond,
}
use cs2620_s26_psets.Netsim.Fifo.{IsConnected, pending}
use cs2620_s26_psets.Backup.Stage.{Stage}

pub record Protocol (s : PtBackupInstance) : Type 0 where
  pub p2b_connected : IsConnected s.p2b
  pub b2p_connected : IsConnected s.b2p
  pub acknowledged : All (λ a. a ≤ s.expected_serial) (pending s.b2p)
  pub stage :
      Stage s.primary_state s.primary_serial s.expected_serial s.primary_log s.backup_log
        (pending s.p2b)
  pub unfailed : s.backup_state ≢ assertion_failed

-- Equal in all that Protocol speaks about; the backup has not failed since.
unfoldable pub SameProtocol : PtBackupInstance → PtBackupInstance → Type 0
SameProtocol s s' =
    (s'.p2b ≡ s.p2b)
    × (s'.b2p ≡ s.b2p)
    × (s'.primary_state ≡ s.primary_state)
    × (s'.primary_serial ≡ s.primary_serial)
    × (s'.expected_serial ≡ s.expected_serial)
    × (s'.primary_log ≡ s.primary_log)
    × (s'.backup_log ≡ s.backup_log)
    × (s.backup_state ≢ assertion_failed → s'.backup_state ≢ assertion_failed)

pub same-Protocol : (s s' : PtBackupInstance) → SameProtocol s s' → Protocol s → Protocol s'
unfolding SameProtocol
same-Protocol s s' (pb, bp, st, ser, ex, pl, bl, f) h = record {
  p2b_connected = rw pb h.p2b_connected;
  b2p_connected = rw bp h.b2p_connected;
  acknowledged = rw (bp, ex) h.acknowledged;
  stage = rw (pb, st, ser, ex, pl, bl) h.stage;
  unfailed = f h.unfailed;
}

pub client-SameProtocol : (s : PtBackupInstance) → SameProtocol s (backup_client s)
unfolding SameProtocol backup_client backup_respond
client-SameProtocol s = ground arith

pub backup_timeout-SameProtocol : (s : PtBackupInstance) → SameProtocol s (backup_timeout s)
unfolding SameProtocol backup_timeout
backup_timeout-SameProtocol s = ground arith
