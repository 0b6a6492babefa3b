-- ===== src/Backup/Defs.antt =====
-- pt_backup_instance of pset3/pt-backup.cc. Each event is what one coroutine does between two
-- points where it waits; which event comes next, and which messages are lost, is the
-- environment's choice, so a failed primary is one whose messages are all lost. The time that
-- `send` takes is no event: no other coroutine reads what its caller then changes.
use cs2620_s26_psets.Base.{
  ℕ, ◌+◌, ◌%◌, ◌^◌, Bool, true, false, not, ◌&&◌, Option, none, some, List, [], ◌∷◌, ◌++◌, ◌==◌,
  if◌then◌else◌,
}
use cs2620_s26_psets.Bytes.{Bytes}
use cs2620_s26_psets.Netsim.Defs.{
  link_send, Link, new_link, link_deliver, link_receive, receive, new_port, Port, enqueue,
}
use cs2620_s26_psets.Pancy.Db.{Pancydb, process_req, init}
use cs2620_s26_psets.Pancy.Msgs.{
  Request, Response, redirection_resp, response_header, request_serial, redirect,
}
use cs2620_s26_psets.Lockseq.Check.{check}

-- Where primary() waits: for a client, or for the backup's answer about a request; or it returned.
pub data PrimaryState : Type 0 where
  waiting : PrimaryState
  forwarding : Request → PrimaryState
  primary_returned : PrimaryState

-- Where backup() waits: in backup mode, or having taken over; or it returned or its assertion failed.
pub data BackupState : Type 0 where
  backup_mode taken_over backup_returned assertion_failed : BackupState

-- The sends to clients are kept in order, before any loss. The `_log` fields are history that no
-- event reads: the requests that each database has processed; `served_log`, after the takeover.
pub record PtBackupInstance : Type 0 where
  pub p2b : Link (ℕ × Request)
  pub b2p : Link ℕ
  pub c2p_port : Port Request
  pub c2b_port : Port Request
  pub p2c_sent : List Response
  pub b2c_sent : List Response
  pub primarydb : Pancydb
  pub backupdb : Pancydb
  pub primarydb_error : Bool
  pub primary_state : PrimaryState
  pub primary_serial : ℕ
  pub primary_loops : ℕ
  pub backup_state : BackupState
  pub expected_serial : ℕ
  pub backup_loops : ℕ
  pub primary_log : List Request
  pub backup_log : List Request
  pub served_log : List Request

abbrev pub primary_id : Bytes
primary_id = 112 ∷ []

abbrev pub backup_id : Bytes
backup_id = 98 ∷ []

abbrev pub start_instance : PtBackupInstance
start_instance = record {
  p2b = new_link primary_id 0;
  b2p = new_link backup_id 1;
  c2p_port = new_port;
  c2b_port = new_port;
  p2c_sent = [];
  b2c_sent = [];
  primarydb = init;
  backupdb = init;
  primarydb_error = false;
  primary_state = waiting;
  primary_serial = 0;
  primary_loops = 0;
  backup_state = backup_mode;
  expected_serial = 0;
  backup_loops = 0;
  primary_log = [];
  backup_log = [];
  served_log = [];
}

-- `p2c_chan_.send(primarydb_.process_req(req))`.
unfoldable pub primary_respond : Request → PtBackupInstance → PtBackupInstance
primary_respond req s = record s {
  primarydb = (process_req s.primarydb req).0;
  p2c_sent = s.p2c_sent ++ ((process_req s.primarydb req).1 ∷ []);
  primary_log = s.primary_log ++ (req ∷ []);
}

-- `p2b_chan_.send(std::make_pair(serial, req))`.
unfoldable pub forward : Bool → Request → PtBackupInstance → PtBackupInstance
forward lost req s = record s { p2b = link_send lost (s.primary_serial, req) s.p2b }

-- `(++loops % (1UL << 20)) == 0 && clients_.check(db)`.
unfoldable pub periodic_check : ℕ → Pancydb → Bool
periodic_check loops d = loops % 2 ^ 20 == 0 && not (is_none (check d))
  where
    is_none : Option Bytes → Bool
    is_none none = true
    is_none (some key) = false

-- primary() obtains a request and forwards it; with `bogus` it responds first.
unfoldable pub primary_request : Bool → Bool → PtBackupInstance → PtBackupInstance
unfolding primary_respond forward
primary_request bogus lost s = elim s.primary_state [
  | waiting ↦ elim (receive s.c2p_port) [
    | none ↦ s
    | some (req, port) ↦
        (let s1 = record s { c2p_port = port } in
          let s2 = if bogus then primary_respond req s1 else s1 in
          let s3 = record s2 {
            primary_serial = s2.primary_serial + 1;
            primary_state = forwarding req;
          } in
          forward lost req s3)
  ]
  | forwarding req ↦ s
  | primary_returned ↦ s
]

-- The end of primary()'s loop, once the backup has acknowledged the request.
unfoldable pub primary_finish : Bool → Request → PtBackupInstance → PtBackupInstance
unfolding primary_respond
primary_finish bogus req s =
    let s1 = if bogus then s else primary_respond req s in
    let s2 = record s1 { primary_loops = s1.primary_loops + 1; primary_state = waiting } in
    if periodic_check s2.primary_loops s2.primarydb
    then record s2 { primarydb_error = true; primary_state = primary_returned }
    else s2

-- primary() receives an acknowledgment: of this request, or of an earlier one, when it sends again.
unfoldable pub primary_ack : Bool → Bool → PtBackupInstance → PtBackupInstance
unfolding forward primary_finish
primary_ack bogus lost s = elim s.primary_state [
  | waiting ↦ s
  | forwarding req ↦ elim (link_receive s.b2p) [
    | none ↦ s
    | some (ret, l) ↦
        (let s1 = record s { b2p = l } in
          if ret == s1.primary_serial then primary_finish bogus req s1 else forward lost req s1)
  ]
  | primary_returned ↦ s
]

-- primary() has waited for a second, and sends again.
unfoldable pub primary_timeout : Bool → PtBackupInstance → PtBackupInstance
unfolding forward
primary_timeout lost s = elim s.primary_state [
  | waiting ↦ s
  | forwarding req ↦ forward lost req s
  | primary_returned ↦ s
]

-- backup() in backup mode: a message from the primary.
unfoldable pub backup_apply : ℕ × Request → PtBackupInstance → PtBackupInstance
backup_apply pmsg s =
    if pmsg.0 == s.expected_serial + 1
    then record s {
      expected_serial = s.expected_serial + 1;
      backupdb = (process_req s.backupdb pmsg.1).0;
      backup_log = s.backup_log ++ (pmsg.1 ∷ []);
    }
    else if pmsg.0 == s.expected_serial
    then s
    else record s { backup_state = assertion_failed }

unfoldable pub acknowledge : Bool → PtBackupInstance → PtBackupInstance
acknowledge lost s = elim s.backup_state [
  | backup_mode ↦ record s { b2p = link_send lost s.expected_serial s.b2p }
  | taken_over ↦ s
  | backup_returned ↦ s
  | assertion_failed ↦ s
]

unfoldable pub backup_receive : Bool → PtBackupInstance → PtBackupInstance
unfolding backup_apply acknowledge
backup_receive lost s = elim s.backup_state [
  | backup_mode ↦ elim (link_receive s.p2b) [
    | none ↦ s
    | some (pmsg, l) ↦ acknowledge lost (backup_apply pmsg (record s { p2b = l }))
  ]
  | taken_over ↦ s
  | backup_returned ↦ s
  | assertion_failed ↦ s
]

unfoldable pub redirection : Request → Response
redirection req =
    redirection_resp
      (record { header = response_header (request_serial req) redirect; redirection = 0 })

-- backup() takes over: it responds to a client's request.
unfoldable pub backup_respond : Request → PtBackupInstance → PtBackupInstance
backup_respond req s =
    let s1 : PtBackupInstance = record s {
      backupdb = (process_req s.backupdb req).0;
      b2c_sent = s.b2c_sent ++ ((process_req s.backupdb req).1 ∷ []);
      served_log = s.served_log ++ (req ∷ []);
      backup_loops = s.backup_loops + 1;
    } in
    if periodic_check s1.backup_loops s1.backupdb
    then record s1 { backup_state = backup_returned }
    else s1

-- backup() receives a client's request: in backup mode it redirects the client to the primary.
unfoldable pub backup_client : PtBackupInstance → PtBackupInstance
unfolding redirection backup_respond
backup_client s = elim s.backup_state [
  | backup_mode ↦ elim (receive s.c2b_port) [
    | none ↦ s
    | some (req, port) ↦ record s {
      c2b_port = port;
      b2c_sent = s.b2c_sent ++ (redirection req ∷ []);
    }
  ]
  | taken_over ↦ elim (receive s.c2b_port) [
    | none ↦ s
    | some (req, port) ↦ backup_respond req (record s { c2b_port = port })
  ]
  | backup_returned ↦ s
  | assertion_failed ↦ s
]

-- backup() has waited for five seconds: the primary has failed.
unfoldable pub backup_timeout : PtBackupInstance → PtBackupInstance
backup_timeout s = elim s.backup_state [
  | backup_mode ↦ record s { backup_state = taken_over }
  | taken_over ↦ s
  | backup_returned ↦ s
  | assertion_failed ↦ s
]

-- The events; a Bool is whether the message that is sent is lost.
pub data BackupEvent : Type 0 where
  on_request on_ack on_primary_timeout on_backup_receive : Bool → BackupEvent
  on_backup_client on_backup_timeout on_deliver_p2b on_deliver_b2p : BackupEvent
  on_client_to_primary on_client_to_backup : Request → BackupEvent

unfoldable pub backup_step : Bool → BackupEvent → PtBackupInstance → PtBackupInstance
backup_step bogus (on_request lost) s = primary_request bogus lost s
backup_step bogus (on_ack lost) s = primary_ack bogus lost s
backup_step bogus (on_primary_timeout lost) s = primary_timeout lost s
backup_step bogus (on_backup_receive lost) s = backup_receive lost s
backup_step bogus on_backup_client s = backup_client s
backup_step bogus on_backup_timeout s = backup_timeout s
backup_step bogus on_deliver_p2b s = record s { p2b = link_deliver s.p2b }
backup_step bogus on_deliver_b2p s = record s { b2p = link_deliver s.b2p }
backup_step bogus (on_client_to_primary req) s = record s {
  c2p_port = enqueue s.c2p_port (req, []);
}
backup_step bogus (on_client_to_backup req) s = record s { c2b_port = enqueue s.c2b_port (req, []) }

unfoldable pub backup_run : Bool → List BackupEvent → PtBackupInstance → PtBackupInstance
backup_run bogus [] s = s
backup_run bogus (e ∷ es) s = backup_run bogus es (backup_step bogus e s)
