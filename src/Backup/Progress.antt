-- ===== src/Backup/Progress.antt =====
-- One request on its way through primary() and backup() of pset3/pt-backup.cc.
use cs2620_s26_psets.Base.{◌+◌, ◌≡◌, false, some, List, [], ◌∷◌, ◌++◌, arith}
use cs2620_s26_psets.Backup.Defs.{
  on_deliver_p2b, on_deliver_b2p, BackupEvent, PtBackupInstance, backup_run, on_request,
  backup_step, on_backup_receive, waiting, on_ack, backup_mode, primary_ack, primary_request,
  forwarding, backup_receive, forward, primary_finish, backup_apply, primary_respond, acknowledge,
}
use cs2620_s26_psets.Backup.Protocol.{Protocol}
use cs2620_s26_psets.Pancy.Msgs.{Request}
use cs2620_s26_psets.Netsim.Defs.{Port, receive, link_send, link_deliver}
use cs2620_s26_psets.Netsim.Fifo.{pending}
use cs2620_s26_psets.Pancy.Db.{process_req}
use cs2620_s26_psets.Backup.Stage.{Stage}
use cs2620_s26_psets.Backup.FromPrimary.{staged}
use cs2620_s26_psets.Netsim.Through.{through}

-- A request goes to the backup and its acknowledgment comes back.
abbrev pub round_trip : List BackupEvent
round_trip =
    on_request false ∷ on_deliver_p2b ∷ on_backup_receive false ∷ on_deliver_b2p ∷ on_ack false ∷ []

-- primary() waits, backup() is in backup mode, and no message between them is on the way.
pub record IsQuiet (s : PtBackupInstance) : Type 0 where
  pub protocol : Protocol s
  pub primary_waits : s.primary_state ≡ waiting
  pub backup_waits : s.backup_state ≡ backup_mode
  pub p2b_empty : pending s.p2b ≡ []
  pub b2p_empty : pending s.b2p ≡ []

module _ (s : PtBackupInstance) (q : IsQuiet s) (req : Request) (port : Port Request)
    (e : receive s.c2p_port ≡ some (req, port)) where
  unfoldable started : PtBackupInstance
  started = record s {
    c2p_port = port;
    primary_serial = s.primary_serial + 1;
    primary_state = forwarding req;
    p2b = link_send false (s.primary_serial + 1, req) s.p2b;
  }

  started_lem : primary_request false false s ≡ started
  unfolding primary_request started forward
  started_lem = ground (arith, q.primary_waits, e)

  unfoldable applied : PtBackupInstance
  applied = record s {
    c2p_port = port;
    primary_serial = s.primary_serial + 1;
    primary_state = forwarding req;
    expected_serial = s.expected_serial + 1;
    backupdb = (process_req s.backupdb req).0;
    backup_log = s.backup_log ++ (req ∷ []);
    b2p = link_send false (s.expected_serial + 1) s.b2p;
  }

  serial_lem : s.primary_serial ≡ s.expected_serial
  unfolding Stage
  serial_lem = (staged s waiting q.primary_waits q.protocol).0

  applied_lem : backup_receive false (record started { p2b = link_deliver started.p2b }) ≡ applied
  unfolding started applied backup_receive backup_apply acknowledge
  applied_lem = ground (
    arith,
    q.backup_waits,
    serial_lem,
    through s.p2b (s.primary_serial + 1, req) q.protocol.p2b_connected q.p2b_empty,
  )

  answered_lem :
      let end = primary_ack false false (record applied { b2p = link_deliver applied.b2p }) in
      (end.p2c_sent ≡ s.p2c_sent ++ ((process_req s.primarydb req).1 ∷ []))
      × (end.primarydb ≡ (process_req s.primarydb req).0)
      × (end.backupdb ≡ (process_req s.backupdb req).0)
      × (end.backup_log ≡ s.backup_log ++ (req ∷ []))
  unfolding applied primary_ack primary_finish primary_respond
  answered_lem = ground (
    arith,
    serial_lem,
    through s.b2p (s.expected_serial + 1) q.protocol.b2p_connected q.b2p_empty,
  )

-- If no message is lost and nothing else happens, a quiet service (primary() waits, backup() is in
-- backup mode, no message between them is on the way) answers the request that its primary
-- receives next, in one round trip: the answer is that of the primary's database, and afterwards
-- the primary's database, the backup's database and the backup's log are what this one request
-- makes of them.
pub round_trip-IsQuiet :
    (s : PtBackupInstance) (req : Request) (port : Port Request)
    → IsQuiet s
    → receive s.c2p_port ≡ some (req, port)
    → let end = backup_run false round_trip s in
      (end.p2c_sent ≡ s.p2c_sent ++ ((process_req s.primarydb req).1 ∷ []))
      × (end.primarydb ≡ (process_req s.primarydb req).0)
      × (end.backupdb ≡ (process_req s.backupdb req).0)
      × (end.backup_log ≡ s.backup_log ++ (req ∷ []))
unfolding backup_run backup_step
round_trip-IsQuiet s req port q e =
    rw (started_lem s q req port e, applied_lem s q req port e) (answered_lem s q req port e)
