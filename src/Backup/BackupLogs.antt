-- ===== src/Backup/BackupLogs.antt =====
-- What the backup of pset3/pt-backup.cc has processed and sent to its clients.
use cs2620_s26_psets.Base.{
  ℕ, ◌≡◌, refl, ap, ◌⊎◌, inl, inr, Bool, List, [], ◌∷◌, ◌++◌, map, arith, Option-cases,
  append_assoc, append_nil,
}
use cs2620_s26_psets.Backup.Defs.{
  on_backup_client, on_backup_timeout, on_deliver_p2b, on_deliver_b2p, backup_receive, BackupState,
  backup_client, backup_step, primary_ack, backup_respond, backup_apply, acknowledge,
  primary_request, PtBackupInstance, primary_timeout, backup_timeout, on_request, BackupEvent,
  backup_mode, forward, primary_finish, primary_respond, taken_over, on_ack, on_primary_timeout,
  backup_returned, assertion_failed, on_backup_receive, redirection, on_client_to_primary,
  on_client_to_backup,
}
use cs2620_s26_psets.Pancy.Spec.{answers}
use cs2620_s26_psets.Netsim.Defs.{receive, link_receive, Port, link_deliver, enqueue}
use cs2620_s26_psets.Pancy.Db.{run, init, process_req}
use cs2620_s26_psets.Pancy.Msgs.{Request}
use cs2620_s26_psets.Backup.Logs.{run-append, answers-append}

-- The backup's database is that of a pancydb that processes what the primary sent it and then
-- what it served itself; its clients are sent redirections for the requests `redirected`, then the
-- answers to those it served.
pub record BackupLog (s : PtBackupInstance) : Type 0 where
  pub redirected : List Request
  pub database : s.backupdb ≡ run (run init s.backup_log) s.served_log
  pub sent : s.b2c_sent ≡ map redirection redirected ++ answers (run init s.backup_log) s.served_log
  pub unserved : s.backup_state ≡ backup_mode → s.served_log ≡ []

apply-BackupLog :
    (m : ℕ × Request) (s : PtBackupInstance)
    → BackupLog s
    → s.backup_state ≡ backup_mode
    → BackupLog (backup_apply m s)
unfolding backup_apply run answers
apply-BackupLog m s h e = record {
  redirected = h.redirected;
  database = ground (arith, h.database, h.unserved, e, run-append init s.backup_log m.1);
  sent = ground (arith, h.sent, h.unserved, e);
  unserved = λ f. ground (arith, h.unserved, e);
}

-- Equal in all that BackupLog speaks about.
unfoldable SameBackup : PtBackupInstance → PtBackupInstance → Type 0
SameBackup s s' =
    (s'.backupdb ≡ s.backupdb)
    × (s'.backup_log ≡ s.backup_log)
    × (s'.served_log ≡ s.served_log)
    × (s'.b2c_sent ≡ s.b2c_sent)
    × (s'.backup_state ≡ s.backup_state)

same-BackupLog : (s s' : PtBackupInstance) → SameBackup s s' → BackupLog s → BackupLog s'
unfolding SameBackup
same-BackupLog s s' (d, l, v, c, m) h = record {
  redirected = h.redirected;
  database = rw (d, l, v) h.database;
  sent = rw (c, l, v) h.sent;
  unserved = rw (m, v) h.unserved;
}

request-SameBackup :
    (bogus lost : Bool) (s : PtBackupInstance) → SameBackup s (primary_request bogus lost s)
unfolding SameBackup primary_request primary_respond forward
request-SameBackup bogus lost s = ground arith

ack-SameBackup :
    (bogus lost : Bool) (s : PtBackupInstance) → SameBackup s (primary_ack bogus lost s)
unfolding SameBackup primary_ack primary_finish primary_respond forward
ack-SameBackup bogus lost s = ground arith

primary_timeout-SameBackup :
    (lost : Bool) (s : PtBackupInstance) → SameBackup s (primary_timeout lost s)
unfolding SameBackup primary_timeout forward
primary_timeout-SameBackup lost s = ground arith

acknowledge-SameBackup : (lost : Bool) (s : PtBackupInstance) → SameBackup s (acknowledge lost s)
unfolding SameBackup acknowledge
acknowledge-SameBackup lost s = ground arith

pub BackupState-cases :
    (b : BackupState)
    → ((b ≡ backup_mode) ⊎ (b ≡ taken_over)) ⊎ ((b ≡ backup_returned) ⊎ (b ≡ assertion_failed))
BackupState-cases backup_mode = inl (inl refl)
BackupState-cases taken_over = inl (inr refl)
BackupState-cases backup_returned = inr (inl refl)
BackupState-cases assertion_failed = inr (inr refl)

receive-BackupLog :
    (lost : Bool) (s : PtBackupInstance) → BackupLog s → BackupLog (backup_receive lost s)
unfolding backup_receive SameBackup
receive-BackupLog lost s h = elim (BackupState-cases s.backup_state) [
  | inl (inl e) ↦ elim (Option-cases (link_receive s.p2b)) [
    | inl f ↦ rw (backup_receive, e, f) h
    | inr (m, f) ↦
        rw (backup_receive, e, f)
          (same-BackupLog (backup_apply m.0 (record s { p2b = m.1 }))
            (acknowledge lost (backup_apply m.0 (record s { p2b = m.1 })))
            (acknowledge-SameBackup lost (backup_apply m.0 (record s { p2b = m.1 })))
            (apply-BackupLog m.0 (record s { p2b = m.1 })
              (same-BackupLog s (record s { p2b = m.1 }) (refl, refl, refl, refl, refl) h) e))
  ]
  | inl (inr e) ↦ rw (backup_receive, e) h
  | inr (inl e) ↦ rw (backup_receive, e) h
  | inr (inr e) ↦ rw (backup_receive, e) h
]

pub map-append {ℓ κ} :
    {A : Type ℓ} {B : Type κ} (f : A → B) (xs ys : List A) → map f (xs ++ ys) ≡ map f xs ++ map f ys
map-append f [] ys = refl
map-append f (x ∷ xs) ys = ap (λ t. f x ∷ t) (map-append f xs ys)

redirect-BackupLog :
    (req : Request) (p : Port Request) (s : PtBackupInstance)
    → BackupLog s
    → s.backup_state ≡ backup_mode
    → BackupLog (record s { c2b_port = p; b2c_sent = s.b2c_sent ++ (redirection req ∷ []) })
unfolding answers
redirect-BackupLog req p s h e = record {
  redirected = h.redirected ++ (req ∷ []);
  database = h.database;
  sent =
      rw
        (
          map-append redirection h.redirected (req ∷ []),
          h.sent,
          h.unserved e,
          append_nil (map redirection h.redirected),
          append_nil (map redirection h.redirected ++ (redirection req ∷ [])),
        )
        refl;
  unserved = h.unserved;
}

respond-BackupLog :
    (req : Request) (s : PtBackupInstance)
    → BackupLog s
    → s.backup_state ≡ taken_over
    → BackupLog (backup_respond req s)
unfolding backup_respond
respond-BackupLog req s h e = record {
  redirected = h.redirected;
  database = ground (arith, h.database, run-append (run init s.backup_log) s.served_log req);
  sent = ground (
    arith,
    h.sent,
    h.database,
    answers-append (run init s.backup_log) s.served_log req,
    append_assoc (map redirection h.redirected) (answers (run init s.backup_log) s.served_log)
        ((process_req (run (run init s.backup_log) s.served_log) req).1 ∷ []),
  );
  unserved = λ f. ground (arith, e, f);
}

client-BackupLog : (s : PtBackupInstance) → BackupLog s → BackupLog (backup_client s)
unfolding backup_client SameBackup
client-BackupLog s h = elim (BackupState-cases s.backup_state) [
  | inl (inl e) ↦ elim (Option-cases (receive s.c2b_port)) [
    | inl f ↦ rw (backup_client, e, f) h
    | inr (m, f) ↦ rw (backup_client, e, f) (redirect-BackupLog m.0 m.1 s h e)
  ]
  | inl (inr e) ↦ elim (Option-cases (receive s.c2b_port)) [
    | inl f ↦ rw (backup_client, e, f) h
    | inr (m, f) ↦
        rw (backup_client, e, f)
          (respond-BackupLog m.0 (record s { c2b_port = m.1 })
            (same-BackupLog s (record s { c2b_port = m.1 }) (refl, refl, refl, refl, refl) h) e)
  ]
  | inr (inl e) ↦ rw (backup_client, e) h
  | inr (inr e) ↦ rw (backup_client, e) h
]

backup_timeout-BackupLog : (s : PtBackupInstance) → BackupLog s → BackupLog (backup_timeout s)
unfolding backup_timeout
backup_timeout-BackupLog s h = record {
  redirected = h.redirected;
  database = ground (arith, h.database);
  sent = ground (arith, h.sent);
  unserved = λ e. ground (arith, h.unserved, e);
}

pub step-BackupLog :
    (bogus : Bool) (e : BackupEvent) (s : PtBackupInstance)
    → BackupLog s
    → BackupLog (backup_step bogus e s)
unfolding backup_step SameBackup
step-BackupLog bogus (on_request lost) s h = same-BackupLog s _ (request-SameBackup bogus lost s) h
step-BackupLog bogus (on_ack lost) s h = same-BackupLog s _ (ack-SameBackup bogus lost s) h
step-BackupLog bogus (on_primary_timeout lost) s h =
    same-BackupLog s _ (primary_timeout-SameBackup lost s) h
step-BackupLog bogus (on_backup_receive lost) s h = receive-BackupLog lost s h
step-BackupLog bogus on_backup_client s h = client-BackupLog s h
step-BackupLog bogus on_backup_timeout s h = backup_timeout-BackupLog s h
step-BackupLog bogus on_deliver_p2b s h =
    same-BackupLog s (record s { p2b = link_deliver s.p2b }) (refl, refl, refl, refl, refl) h
step-BackupLog bogus on_deliver_b2p s h =
    same-BackupLog s (record s { b2p = link_deliver s.b2p }) (refl, refl, refl, refl, refl) h
step-BackupLog bogus (on_client_to_primary r) s h =
    same-BackupLog s (record s { c2p_port = enqueue s.c2p_port (r, []) })
      (refl, refl, refl, refl, refl) h
step-BackupLog bogus (on_client_to_backup r) s h =
    same-BackupLog s (record s { c2b_port = enqueue s.c2b_port (r, []) })
      (refl, refl, refl, refl, refl) h
