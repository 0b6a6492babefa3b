-- ===== src/Backup/Failover.antt =====
-- Runs of pset3/pt-backup.cc, and what the clients have been sent.
use cs2620_s26_psets.Base.{◌≤◌, ◌≡◌, refl, ◌≢◌, Bool, false, List, [], ◌∷◌, ◌++◌, map, length}
use cs2620_s26_psets.Backup.Defs.{
  on_backup_client, on_backup_timeout, on_deliver_p2b, on_deliver_b2p, BackupEvent, backup_step,
  backup_run, PtBackupInstance, on_request, start_instance, assertion_failed, on_ack, redirection,
  on_primary_timeout, primary_id, backup_id, on_backup_receive, backup_client, backup_timeout,
  on_client_to_primary, on_client_to_backup,
}
use cs2620_s26_psets.Backup.Stage.{Stage, ahead-Stage}
use cs2620_s26_psets.Backup.Logs.{PrimaryLog, step-PrimaryLog}
use cs2620_s26_psets.Pancy.Db.{run, init}
use cs2620_s26_psets.Backup.Protocol.{
  SameProtocol, Protocol, same-Protocol, client-SameProtocol, backup_timeout-SameProtocol,
}
use cs2620_s26_psets.Netsim.Fifo.{
  pending, payloads, deliver-IsConnected, carried, pending-deliver, new_link-IsConnected,
}
use cs2620_s26_psets.Pancy.Spec.{answers}
use cs2620_s26_psets.Netsim.Defs.{link_deliver, connect, enqueue}
use cs2620_s26_psets.Pancy.Msgs.{Request}
use cs2620_s26_psets.Backup.BackupLogs.{BackupLog, step-BackupLog}
use cs2620_s26_psets.Backup.FromPrimary.{request-Protocol, ack-Protocol, primary_timeout-Protocol}
use cs2620_s26_psets.Backup.FromBackup.{receive-Protocol}

deliver-Protocol :
    (s : PtBackupInstance)
    → Protocol s
    → Protocol (record s { p2b = link_deliver s.p2b })
      × Protocol (record s { b2p = link_deliver s.b2p })
deliver-Protocol s h = (
  record {
    p2b_connected = deliver-IsConnected s.p2b h.p2b_connected;
    b2p_connected = h.b2p_connected;
    acknowledged = h.acknowledged;
    stage = rw (pending-deliver s.p2b h.p2b_connected) h.stage;
    unfailed = h.unfailed;
  },
  record {
    p2b_connected = h.p2b_connected;
    b2p_connected = deliver-IsConnected s.b2p h.b2p_connected;
    acknowledged = rw (pending-deliver s.b2p h.b2p_connected) h.acknowledged;
    stage = h.stage;
    unfailed = h.unfailed;
  },
)

pub step-Protocol :
    (e : BackupEvent) (s : PtBackupInstance) → Protocol s → Protocol (backup_step false e s)
unfolding backup_step SameProtocol
step-Protocol (on_request lost) s h = request-Protocol lost s h
step-Protocol (on_ack lost) s h = ack-Protocol lost s h
step-Protocol (on_primary_timeout lost) s h = primary_timeout-Protocol lost s h
step-Protocol (on_backup_receive lost) s h = receive-Protocol lost s h
step-Protocol on_backup_client s h = same-Protocol s (backup_client s) (client-SameProtocol s) h
step-Protocol on_backup_timeout s h =
    same-Protocol s (backup_timeout s) (backup_timeout-SameProtocol s) h
step-Protocol on_deliver_p2b s h = (deliver-Protocol s h).0
step-Protocol on_deliver_b2p s h = (deliver-Protocol s h).1
step-Protocol (on_client_to_primary r) s h =
    same-Protocol s (record s { c2p_port = enqueue s.c2p_port (r, []) })
      (refl, refl, refl, refl, refl, refl, refl, λ f. f) h
step-Protocol (on_client_to_backup r) s h =
    same-Protocol s (record s { c2b_port = enqueue s.c2b_port (r, []) })
      (refl, refl, refl, refl, refl, refl, refl, λ f. f) h

pub start-Protocol : Protocol start_instance
unfolding Stage pending connect payloads carried
start-Protocol = record {
  p2b_connected = new_link-IsConnected primary_id 0;
  b2p_connected = new_link-IsConnected backup_id 1;
  acknowledged = tt;
  stage = (refl, refl, tt);
  unfailed = λ e. cc;
}

start-BackupLog : BackupLog start_instance
unfolding run answers
start-BackupLog = record { redirected = []; database = refl; sent = refl; unserved = λ e. refl }

start-PrimaryLog : PrimaryLog start_instance
unfolding PrimaryLog run answers
start-PrimaryLog = (refl, refl)

run_keeps {ℓ} :
    (P : PtBackupInstance → Type ℓ) (bogus : Bool)
    → ((e : BackupEvent) (s : PtBackupInstance) → P s → P (backup_step bogus e s))
    → (es : List BackupEvent) (s : PtBackupInstance) → P s
    → P (backup_run bogus es s)
unfolding backup_run
run_keeps P bogus f [] s h = h
run_keeps P bogus f (e ∷ es) s h = run_keeps P bogus f es (backup_step bogus e s) (f e s h)

-- Without `bogus`, whatever the order of events and whichever messages are lost, the assertion of
-- backup() holds.
pub backup_asserts :
    (es : List BackupEvent) → (backup_run false es start_instance).backup_state ≢ assertion_failed
backup_asserts es =
    (run_keeps Protocol false step-Protocol es start_instance start-Protocol).unfailed

-- All that the clients have been sent, by either server, comes from one sequence of requests.
pub record OneLog (s : PtBackupInstance) : Type 0 where
  pub processed : List Request
  pub unanswered : List Request
  pub served : List Request
  pub redirected : List Request
  pub at_most_one : length unanswered ≤ 1
  pub primary_answers : s.p2c_sent ≡ answers init processed
  pub backup_answers :
      s.b2c_sent ≡ map redirection redirected ++ answers (run init (processed ++ unanswered)) served
  pub backup_database : s.backupdb ≡ run (run init (processed ++ unanswered)) served

one_log_lem : (s : PtBackupInstance) → Protocol s → PrimaryLog s → BackupLog s → OneLog s
unfolding PrimaryLog
one_log_lem s p pl bl =
    let (u, a, b) =
      ahead-Stage s.primary_serial s.expected_serial s.primary_log s.backup_log (pending s.p2b)
        s.primary_state p.stage in
    record {
      processed = s.primary_log;
      unanswered = u;
      served = s.served_log;
      redirected = bl.redirected;
      at_most_one = b;
      primary_answers = pl.1;
      backup_answers = rw⁻¹ a bl.sent;
      backup_database = rw⁻¹ a bl.database;
    }

-- Without `bogus`, whatever the order of events and whichever messages are lost: the responses of
-- the primary are those of a pancydb that processes some requests from the start; the backup's
-- database has processed the same requests, at most one more, and those that it served after it
-- took over, and what it has sent are redirections and then its answers to the latter.
pub failover-OneLog : (es : List BackupEvent) → OneLog (backup_run false es start_instance)
failover-OneLog es =
    one_log_lem (backup_run false es start_instance)
      (run_keeps Protocol false step-Protocol es start_instance start-Protocol)
      (run_keeps PrimaryLog false (step-PrimaryLog false) es start_instance start-PrimaryLog)
      (run_keeps BackupLog false (step-BackupLog false) es start_instance start-BackupLog)
