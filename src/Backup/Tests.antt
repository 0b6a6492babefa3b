-- ===== src/Backup/Tests.antt =====
-- Examples for the primary-backup service.
use cs2620_s26_psets.Base.{◌≡◌, refl, ◌≢◌, true, false, List, [], ◌∷◌, length, some, ◌++◌}
use cs2620_s26_psets.Netsim.Defs.{
  receive, receive_with_id, enqueue, link_receive, link_deliver, deliver, link_send, send, connect,
  new_port,
}
use cs2620_s26_psets.Backup.Defs.{
  backup_client, backup_timeout, backup_receive, primary_request, primary_ack, primary_timeout,
  periodic_check, on_backup_client, on_backup_timeout, on_deliver_p2b, on_deliver_b2p, backup_run,
  BackupEvent, on_request, backup_step, start_instance, on_client_to_primary, assertion_failed,
  on_backup_receive, on_primary_timeout, on_ack, on_client_to_backup, PtBackupInstance,
}
use cs2620_s26_psets.Backup.Failover.{
  OneLog, failover-OneLog, backup_asserts, step-Protocol, start-Protocol,
}
use cs2620_s26_psets.Pancy.Msgs.{Request, put_req, any_version}
use cs2620_s26_psets.Backup.Progress.{round_trip, IsQuiet, round_trip-IsQuiet}
use cs2620_s26_psets.Netsim.Fifo.{pending, payloads, carried}
use cs2620_s26_psets.Pancy.Db.{process_req, init}

-- Two requests arrive; the first goes through, and its acknowledgment is lost once; of the second
-- the backup's acknowledgment is lost and the backup takes over.
abbrev put_a : Request
put_a = put_req (record { serial = 1; key = 97 ∷ []; value = 98 ∷ []; version_match = any_version })

abbrev put_b : Request
put_b = put_req (record { serial = 2; key = 97 ∷ []; value = 99 ∷ []; version_match = any_version })

abbrev events : List BackupEvent
events =
    on_client_to_primary put_a
    ∷ on_request false
    ∷ on_deliver_p2b
    ∷ on_backup_receive true
    ∷ on_primary_timeout false
    ∷ on_deliver_p2b
    ∷ on_backup_receive false
    ∷ on_deliver_b2p
    ∷ on_ack false
    ∷ on_client_to_primary put_b
    ∷ on_request false
    ∷ on_deliver_p2b
    ∷ on_backup_receive true
    ∷ on_client_to_backup put_b
    ∷ on_backup_client
    ∷ on_backup_timeout
    ∷ on_client_to_backup put_b
    ∷ on_backup_client
    ∷ []

backup_asserts_example : (backup_run false events start_instance).backup_state ≢ assertion_failed
backup_asserts_example = backup_asserts events

failover-OneLog_example : OneLog (backup_run false events start_instance)
failover-OneLog_example = failover-OneLog events

abbrev asked : PtBackupInstance
asked = record start_instance { c2p_port = enqueue new_port (put_a, []) }

asked-IsQuiet : IsQuiet asked
unfolding backup_step pending connect payloads carried
asked-IsQuiet = record {
  protocol = step-Protocol (on_client_to_primary put_a) start_instance start-Protocol;
  primary_waits = refl;
  backup_waits = refl;
  p2b_empty = refl;
  b2p_empty = refl;
}

asked_receives : receive asked.c2p_port ≡ some (put_a, new_port)
unfolding receive receive_with_id enqueue
asked_receives = refl

round_trip-IsQuiet_example :
    let end = backup_run false round_trip asked in
    (end.p2c_sent ≡ [] ++ ((process_req init put_a).1 ∷ []))
    × (end.primarydb ≡ (process_req init put_a).0)
    × (end.backupdb ≡ (process_req init put_a).0)
    × (end.backup_log ≡ [] ++ (put_a ∷ []))
round_trip-IsQuiet_example = round_trip-IsQuiet asked put_a new_port asked-IsQuiet asked_receives

two_answers : length (backup_run false events start_instance).b2c_sent ≡ 2
unfolding backup_run backup_step backup_client backup_timeout backup_receive primary_request
    primary_ack primary_timeout receive receive_with_id enqueue link_receive link_deliver deliver
    link_send send connect periodic_check
two_answers = refl

one_answer : length (backup_run false events start_instance).p2c_sent ≡ 1
unfolding backup_run backup_step backup_client backup_timeout backup_receive primary_request
    primary_ack primary_timeout receive receive_with_id enqueue link_receive link_deliver deliver
    link_send send connect periodic_check
one_answer = refl
