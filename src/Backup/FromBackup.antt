-- ===== src/Backup/FromBackup.antt =====
-- The backup's part in the protocol of pset3/pt-backup.cc.
use mathlib.Core.Path.{subst}
use cs2620_s26_psets.Netsim.Defs.{link_receive}
use cs2620_s26_psets.Netsim.Fifo.{
  send-IsConnected, pending-lost, pending-send, pending, pending-receive, receive-IsConnected,
}
use cs2620_s26_psets.Base.{
  ℕ, ◌+◌, ◌≤◌, ◌≡◌, inl, inr, Bool, false, some, [], ◌∷◌, arith, ◌==◌, Bool-cases, Option-cases,
  All-append, ==_iff, All-map_of,
}
use cs2620_s26_psets.Backup.Defs.{backup_apply, acknowledge, backup_receive, PtBackupInstance}
use cs2620_s26_psets.Pancy.Msgs.{Request}
use cs2620_s26_psets.Backup.Protocol.{Protocol}
use cs2620_s26_psets.Backup.BackupLogs.{BackupState-cases}
use cs2620_s26_psets.Netsim.Defs.{Link}
use cs2620_s26_psets.Backup.Stage.{Stage, receive-Stage}

acknowledge-Protocol :
    (lost : Bool) (s : PtBackupInstance) → Protocol s → Protocol (acknowledge lost s)
unfolding acknowledge
acknowledge-Protocol lost s h = elim (BackupState-cases s.backup_state) [
  | inl (inl e) ↦
      rw (acknowledge, e)
        (record {
          p2b_connected = h.p2b_connected;
          b2p_connected = send-IsConnected s.b2p h.b2p_connected lost s.expected_serial;
          acknowledged = elim (Bool-cases lost) [
            | inl f ↦ rw (f, pending-lost s.b2p h.b2p_connected s.expected_serial) h.acknowledged
            | inr f ↦
                rw (f, pending-send s.b2p h.b2p_connected s.expected_serial)
                  (All-append (λ a. a ≤ s.expected_serial) (pending s.b2p) (s.expected_serial ∷ [])
                    h.acknowledged (omega arith, tt))
          ];
          stage = h.stage;
          unfailed = h.unfailed;
        })
  | inl (inr e) ↦ rw (acknowledge, e) h
  | inr (inl e) ↦ rw (acknowledge, e) h
  | inr (inr e) ↦ rw (acknowledge, e) h
]

not_next : (a b : ℕ) → a ≡ b → (a == b + 1) ≡ false
not_next a b h = ground (arith, h)

-- The assertion holds, whichever message arrives.
apply-Protocol :
    (m : ℕ × Request) (l : Link (ℕ × Request)) (s : PtBackupInstance)
    → Protocol s
    → link_receive s.p2b ≡ some (m, l)
    → Protocol (backup_apply m (record s { p2b = l }))
unfolding backup_apply
apply-Protocol m l s h e =
    elim (receive-Stage s.primary_serial s.expected_serial s.primary_log s.backup_log (pending l)
      s.primary_state m arrived) [
        | inl (f, st) ↦
            rw (backup_apply, (==_iff m.0 (s.expected_serial + 1)).1 f)
              (record {
                p2b_connected = receive-IsConnected s.p2b l m e h.p2b_connected;
                b2p_connected = h.b2p_connected;
                acknowledged = All-map_of (pending s.b2p) (λ a b. omega arith) h.acknowledged;
                stage = st;
                unfailed = h.unfailed;
              })
        | inr (f, st) ↦
            rw (backup_apply, not_next m.0 s.expected_serial f, (==_iff m.0 s.expected_serial).1 f)
              (record {
                p2b_connected = receive-IsConnected s.p2b l m e h.p2b_connected;
                b2p_connected = h.b2p_connected;
                acknowledged = h.acknowledged;
                stage = st;
                unfailed = h.unfailed;
              })
      ]
  where
    arrived :
        Stage s.primary_state s.primary_serial s.expected_serial s.primary_log s.backup_log
          (m ∷ pending l)
    arrived =
        subst
          (λ ms.
            Stage s.primary_state s.primary_serial s.expected_serial s.primary_log s.backup_log ms)
          (pending-receive s.p2b l m e) h.stage

pub receive-Protocol :
    (lost : Bool) (s : PtBackupInstance) → Protocol s → Protocol (backup_receive lost s)
unfolding backup_receive
receive-Protocol lost s h = elim (BackupState-cases s.backup_state) [
  | inl (inl e) ↦ elim (Option-cases (link_receive s.p2b)) [
    | inl f ↦ rw (backup_receive, e, f) h
    | inr (m, f) ↦
        rw (backup_receive, e, f)
          (acknowledge-Protocol lost (backup_apply m.0 (record s { p2b = m.1 }))
            (apply-Protocol m.0 m.1 s h f))
  ]
  | inl (inr e) ↦ rw (backup_receive, e) h
  | inr (inl e) ↦ rw (backup_receive, e) h
  | inr (inr e) ↦ rw (backup_receive, e) h
]
