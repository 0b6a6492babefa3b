-- ===== src/Backup/Logs.antt =====
-- What the databases of pset3/pt-backup.cc hold, and what the clients are sent, in terms of the
-- requests processed.
use cs2620_s26_psets.Base.{
  ◌≡◌, refl, ap, ◌⊎◌, inl, inr, Bool, List, [], ◌∷◌, ◌++◌, arith, Option-cases,
}
use cs2620_s26_psets.Backup.Defs.{
  on_backup_client, on_backup_timeout, on_deliver_p2b, on_deliver_b2p, primary_finish,
  primary_request, backup_step, primary_respond, PtBackupInstance, forward, on_request, BackupEvent,
  on_ack, on_primary_timeout, on_backup_receive, on_client_to_primary, on_client_to_backup,
  primary_ack, primary_timeout, backup_receive, acknowledge, backup_apply, backup_client,
  backup_respond, backup_timeout, PrimaryState, waiting, primary_returned, forwarding,
}
use cs2620_s26_psets.Pancy.Db.{run, Pancydb, init, process_req}
use cs2620_s26_psets.Pancy.Spec.{answers}
use cs2620_s26_psets.Pancy.Msgs.{Request}
use cs2620_s26_psets.Netsim.Defs.{receive, link_receive}

pub run-append :
    (d : Pancydb) (rs : List Request) (r : Request)
    → run d (rs ++ (r ∷ [])) ≡ (process_req (run d rs) r).0
unfolding run
run-append d [] r = refl
run-append d (q ∷ rs) r = run-append (process_req d q).0 rs r

pub answers-append :
    (d : Pancydb) (rs : List Request) (r : Request)
    → answers d (rs ++ (r ∷ [])) ≡ answers d rs ++ ((process_req (run d rs) r).1 ∷ [])
unfolding run answers
answers-append d [] r = refl
answers-append d (q ∷ rs) r =
    ap (λ t. (process_req d q).1 ∷ t) (answers-append (process_req d q).0 rs r)

-- The primary's database and its responses are those of a pancydb that processes its log.
unfoldable pub PrimaryLog : PtBackupInstance → Type 0
PrimaryLog s = (s.primarydb ≡ run init s.primary_log) × (s.p2c_sent ≡ answers init s.primary_log)

respond-PrimaryLog :
    (req : Request) (s : PtBackupInstance) → PrimaryLog s → PrimaryLog (primary_respond req s)
unfolding PrimaryLog primary_respond
respond-PrimaryLog req s h =
    rw (run-append init s.primary_log req, answers-append init s.primary_log req, h.0, h.1)
      (refl, refl)

finish-PrimaryLog :
    (bogus : Bool) (req : Request) (s : PtBackupInstance)
    → PrimaryLog s
    → PrimaryLog (primary_finish bogus req s)
unfolding PrimaryLog primary_finish
finish-PrimaryLog bogus req s h = ground (arith, h, respond-PrimaryLog req s h)

request-PrimaryLog :
    (bogus lost : Bool) (s : PtBackupInstance)
    → PrimaryLog s
    → PrimaryLog (primary_request bogus lost s)
unfolding PrimaryLog primary_request forward
request-PrimaryLog bogus lost s h = elim (Option-cases (receive s.c2p_port)) [
  | inl e ↦ ground (arith, h, e)
  | inr (m, e) ↦
      ground (arith, h, e, run-append init s.primary_log m.0, answers-append init s.primary_log m.0)
]

-- What primary() does while it waits for the backup.
pub PrimaryState-cases :
    (p : PrimaryState)
    → ((p ≡ waiting) ⊎ (p ≡ primary_returned)) ⊎ ((req : Request) × (p ≡ forwarding req))
PrimaryState-cases waiting = inl (inl refl)
PrimaryState-cases primary_returned = inl (inr refl)
PrimaryState-cases (forwarding req) = inr (req, refl)

ack-PrimaryLog :
    (bogus lost : Bool) (s : PtBackupInstance)
    → PrimaryLog s
    → PrimaryLog (primary_ack bogus lost s)
unfolding PrimaryLog primary_ack forward
ack-PrimaryLog bogus lost s h = elim (PrimaryState-cases s.primary_state) [
  | inl e ↦ ground (arith, h, e)
  | inr (req, e) ↦ elim (Option-cases (link_receive s.b2p)) [
    | inl f ↦ ground (arith, h, e, f)
    | inr (m, f) ↦ ground (arith, h, e, f, finish-PrimaryLog bogus req (record s { b2p = m.1 }) h)
  ]
]

pub step-PrimaryLog :
    (bogus : Bool) (e : BackupEvent) (s : PtBackupInstance)
    → PrimaryLog s
    → PrimaryLog (backup_step bogus e s)
unfolding PrimaryLog backup_step primary_ack primary_timeout forward backup_receive acknowledge
    backup_apply backup_client backup_respond backup_timeout
step-PrimaryLog bogus (on_request lost) s h = request-PrimaryLog bogus lost s h
step-PrimaryLog bogus (on_ack lost) s h = ack-PrimaryLog bogus lost s h
step-PrimaryLog bogus (on_primary_timeout lost) s h = ground (arith, h)
step-PrimaryLog bogus (on_backup_receive lost) s h = ground (arith, h)
step-PrimaryLog bogus on_backup_client s h = ground (arith, h)
step-PrimaryLog bogus on_backup_timeout s h = ground (arith, h)
step-PrimaryLog bogus on_deliver_p2b s h = h
step-PrimaryLog bogus on_deliver_b2p s h = h
step-PrimaryLog bogus (on_client_to_primary r) s h = h
step-PrimaryLog bogus (on_client_to_backup r) s h = h
