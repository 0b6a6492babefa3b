-- ===== src/Backup/FromPrimary.antt =====
-- The primary's part in the protocol of pset3/pt-backup.cc.
use mathlib.Core.Path.{subst}
use cs2620_s26_psets.Base.{
  ℕ, ◌+◌, ◌≤◌, ◌≡◌, refl, inl, inr, Bool, false, some, [], ◌∷◌, ◌++◌, arith, ◌==◌, Bool-cases,
  Option-cases, All, ==_iff,
}
use cs2620_s26_psets.Backup.Defs.{
  primary_ack, forward, primary_finish, primary_request, PtBackupInstance, primary_timeout,
  PrimaryState, primary_respond, waiting, forwarding, periodic_check,
}
use cs2620_s26_psets.Pancy.Msgs.{Request}
use cs2620_s26_psets.Netsim.Defs.{Link, Port, link_receive, receive}
use cs2620_s26_psets.Backup.Protocol.{Protocol}
use cs2620_s26_psets.Backup.Stage.{Stage, start-Stage, finish-Stage, resend-Stage, return-Stage}
use cs2620_s26_psets.Backup.Logs.{PrimaryState-cases}
use cs2620_s26_psets.Netsim.Fifo.{
  pending, send-IsConnected, pending-receive, pending-lost, pending-send, receive-IsConnected,
}
use cs2620_s26_psets.Pancy.Db.{process_req}

pub staged :
    (s : PtBackupInstance) (p : PrimaryState)
    → s.primary_state ≡ p
    → Protocol s
    → Stage p s.primary_serial s.expected_serial s.primary_log s.backup_log (pending s.p2b)
staged s p e h =
    subst
      (λ q. Stage q s.primary_serial s.expected_serial s.primary_log s.backup_log (pending s.p2b)) e
      h.stage

forward-Protocol :
    (lost : Bool) (req : Request) (s : PtBackupInstance)
    → Protocol s
    → s.primary_state ≡ forwarding req
    → Protocol (forward lost req s)
unfolding forward
forward-Protocol lost req s h e = record {
  p2b_connected = send-IsConnected s.p2b h.p2b_connected lost (s.primary_serial, req);
  b2p_connected = h.b2p_connected;
  acknowledged = h.acknowledged;
  stage = elim (Bool-cases lost) [
    | inl f ↦ rw (f, pending-lost s.p2b h.p2b_connected (s.primary_serial, req)) h.stage
    | inr f ↦
        rw (f, pending-send s.p2b h.p2b_connected (s.primary_serial, req), e)
          (resend-Stage s.primary_serial s.expected_serial s.primary_log s.backup_log
            (pending s.p2b) req (staged s (forwarding req) e h))
  ];
  unfailed = h.unfailed;
}

-- primary() has taken a request from its port.
started-Protocol :
    (req : Request) (p : Port Request) (s : PtBackupInstance)
    → Protocol s
    → s.primary_state ≡ waiting
    → Protocol (record s {
      c2p_port = p;
      primary_serial = s.primary_serial + 1;
      primary_state = forwarding req;
    })
started-Protocol req p s h e = record {
  p2b_connected = h.p2b_connected;
  b2p_connected = h.b2p_connected;
  acknowledged = h.acknowledged;
  stage =
      start-Stage s.primary_serial s.expected_serial s.primary_log s.backup_log (pending s.p2b) req
        (staged s waiting e h);
  unfailed = h.unfailed;
}

pub request-Protocol :
    (lost : Bool) (s : PtBackupInstance) → Protocol s → Protocol (primary_request false lost s)
unfolding primary_request
request-Protocol lost s h = elim (PrimaryState-cases s.primary_state) [
  | inl (inl e) ↦ elim (Option-cases (receive s.c2p_port)) [
    | inl f ↦ rw (primary_request, e, f) h
    | inr (m, f) ↦
        rw (primary_request, e, f)
          (forward-Protocol lost m.0
            (record s {
              c2p_port = m.1;
              primary_serial = s.primary_serial + 1;
              primary_state = forwarding m.0;
            })
            (started-Protocol m.0 m.1 s h e) refl)
  ]
  | inl (inr e) ↦ rw (primary_request, e) h
  | inr (req, e) ↦ rw (primary_request, e) h
]

pub primary_timeout-Protocol :
    (lost : Bool) (s : PtBackupInstance) → Protocol s → Protocol (primary_timeout lost s)
unfolding primary_timeout
primary_timeout-Protocol lost s h = elim (PrimaryState-cases s.primary_state) [
  | inl (inl e) ↦ rw (primary_timeout, e) h
  | inl (inr e) ↦ rw (primary_timeout, e) h
  | inr (req, e) ↦ rw (primary_timeout, e) (forward-Protocol lost req s h e)
]

finish-Protocol :
    (req : Request) (s : PtBackupInstance)
    → Protocol s
    → s.primary_state ≡ forwarding req
    → s.primary_serial ≤ s.expected_serial
    → Protocol (primary_finish false req s)
unfolding primary_finish primary_respond
finish-Protocol req s h e b =
    elim (Bool-cases (periodic_check (s.primary_loops + 1) (process_req s.primarydb req).0)) [
      | inl g ↦
          rw (primary_finish, g)
            (record {
              p2b_connected = h.p2b_connected;
              b2p_connected = h.b2p_connected;
              acknowledged = h.acknowledged;
              stage =
                  return-Stage s.primary_serial s.expected_serial (s.primary_log ++ (req ∷ []))
                    s.backup_log (pending s.p2b) finished;
              unfailed = h.unfailed;
            })
      | inr g ↦
          rw (primary_finish, g)
            (record {
              p2b_connected = h.p2b_connected;
              b2p_connected = h.b2p_connected;
              acknowledged = h.acknowledged;
              stage = finished;
              unfailed = h.unfailed;
            })
    ]
  where
    finished :
        Stage waiting s.primary_serial s.expected_serial
          (s.primary_log ++ (req ∷ []))
          s.backup_log
          (pending s.p2b)
    finished =
        finish-Stage s.primary_serial s.expected_serial s.primary_log s.backup_log (pending s.p2b)
          req b (staged s (forwarding req) e h)

-- An acknowledgment leaves the way from the backup.
ack_received-Protocol :
    (s : PtBackupInstance) (ret : ℕ) (l : Link ℕ)
    → Protocol s
    → link_receive s.b2p ≡ some (ret, l)
    → (ret ≤ s.expected_serial) × Protocol (record s { b2p = l })
ack_received-Protocol s ret l h e = (
  acks.0,
  record {
    p2b_connected = h.p2b_connected;
    b2p_connected = receive-IsConnected s.b2p l ret e h.b2p_connected;
    acknowledged = acks.1;
    stage = h.stage;
    unfailed = h.unfailed;
  },
)
  where
    acks : All (λ a. a ≤ s.expected_serial) (ret ∷ pending l)
    acks =
        subst (λ ms. All (λ a. a ≤ s.expected_serial) ms) (pending-receive s.b2p l ret e)
          h.acknowledged

pub ack-Protocol :
    (lost : Bool) (s : PtBackupInstance) → Protocol s → Protocol (primary_ack false lost s)
unfolding primary_ack
ack-Protocol lost s h = elim (PrimaryState-cases s.primary_state) [
  | inl (inl e) ↦ rw (primary_ack, e) h
  | inl (inr e) ↦ rw (primary_ack, e) h
  | inr (req, e) ↦ elim (Option-cases (link_receive s.b2p)) [
    | inl f ↦ rw (primary_ack, e, f) h
    | inr (m, f) ↦ elim (Bool-cases (m.0 == s.primary_serial)) [
      | inl g ↦
          rw (primary_ack, e, f, g)
            (finish-Protocol req (record s { b2p = m.1 }) (ack_received-Protocol s m.0 m.1 h f).1 e
              (omega (
                arith,
                (==_iff m.0 s.primary_serial).0 g,
                (ack_received-Protocol s m.0 m.1 h f).0,
              )))
      | inr g ↦
          rw (primary_ack, e, f, g)
            (forward-Protocol lost req (record s { b2p = m.1 })
              (ack_received-Protocol s m.0 m.1 h f).1 e)
    ]
  ]
]
