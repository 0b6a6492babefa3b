-- ===== src/Service/Replica.antt =====
-- pt_paxos_replica of pset3/pt-paxos.cc, as it is handed out: one of the replicas is the leader, and
-- the others send clients to it. Messages between replicas are not used yet.
use cs2620_s26_psets.Base.{
  ℕ, ◌≡◌, refl, sym, ap, ◌∙◌, ◌≢◌, inl, inr, not, none, some, List, [], ◌∷◌, ◌++◌, map, arith, ◌==◌,
  if◌then◌else◌, append_nil, append_assoc, List-cases, length,
}
use cs2620_s26_psets.Service.Single.{on_round, arrivals, ServiceEvent, on_arrival, rounds}
use cs2620_s26_psets.Netsim.Defs.{receive, Port, enqueue, receive_with_id, new_port}
use cs2620_s26_psets.Pancy.Msgs.{
  Request, Response, redirection_resp, response_header, request_serial, redirect, get_req, put_req,
  cas_req, remove_req,
}
use cs2620_s26_psets.Pancy.Db.{run, process_req, Pancydb, init}
use cs2620_s26_psets.Netsim.Fifo.{payloads, payloads-append}
use cs2620_s26_psets.Pancy.Spec.{answers}
use cs2620_s26_psets.Backup.Logs.{run-append, answers-append}
use cs2620_s26_psets.Backup.BackupLogs.{map-append}
use cs2620_s26_psets.Bytes.{Bytes}

pub record PtPaxosReplica : Type 0 where
  pub index : ℕ
  pub leader_index : ℕ
  pub from_clients : Port Request
  pub sent : List Response
  pub db : Pancydb

abbrev pub initialize : ℕ → ℕ → PtPaxosReplica
initialize index initial_leader = record {
  index = index;
  leader_index = initial_leader;
  from_clients = new_port;
  sent = [];
  db = init;
}

unfoldable pub redirection_to : ℕ → Request → Response
redirection_to leader req =
    redirection_resp
      (record { header = response_header (request_serial req) redirect; redirection = leader })

-- One round of `run`; on an empty port it waits.
unfoldable pub replica_round : PtPaxosReplica → PtPaxosReplica
replica_round s = elim (receive s.from_clients) [
  | none ↦ s
  | some (req, port) ↦
      (let s1 = record s { from_clients = port } in
        if not (s1.index == s1.leader_index)
        then record s1 { sent = s1.sent ++ (redirection_to s1.leader_index req ∷ []) }
        else record s1 {
          sent = s1.sent ++ ((process_req s1.db req).1 ∷ []);
          db = (process_req s1.db req).0;
        })
]

unfoldable pub replica_run : List ServiceEvent → PtPaxosReplica → PtPaxosReplica
replica_run [] s = s
replica_run (on_arrival req ∷ es) s =
    replica_run es (record s { from_clients = enqueue s.from_clients (req, []) })
replica_run (on_round ∷ es) s = replica_run es (replica_round s)

-- The redirection to a leader that a request is to get: it has the serial number of the request.
unfoldable pub serial_of : Request → ℕ
serial_of (get_req r) = r.serial
serial_of (put_req r) = r.serial
serial_of (cas_req r) = r.serial
serial_of (remove_req r) = r.serial

abbrev pub redirected_to : ℕ → Request → Response
redirected_to leader req = redirection_resp (record {
  header = record { serial = serial_of req; errcode = redirect };
  redirection = leader;
})

redirection_to-redirected_to :
    (leader : ℕ) (req : Request) → redirection_to leader req ≡ redirected_to leader req
unfolding redirection_to request_serial serial_of
redirection_to-redirected_to leader (get_req r) = refl
redirection_to-redirected_to leader (put_req r) = refl
redirection_to-redirected_to leader (cas_req r) = refl
redirection_to-redirected_to leader (remove_req r) = refl

-- What a replica has done with the first of the requests that arrived: the leader answers them as
-- a pancydb; the others redirect them, and keep an empty database.
pub record Behaves (all : List Request) (index leader : ℕ) (s : PtPaxosReplica) : Type 0 where
  pub handled : List Request
  pub waits : handled ++ payloads s.from_clients.messageq ≡ all
  pub same_index : s.index ≡ index
  pub same_leader : s.leader_index ≡ leader
  pub leads : index ≡ leader → (s.sent ≡ answers init handled) × (s.db ≡ run init handled)
  pub follows : index ≢ leader → (s.sent ≡ map (redirected_to leader) handled) × (s.db ≡ init)

module _ (all : List Request) (index leader : ℕ) where
  round-Behaves :
      (s : PtPaxosReplica) → Behaves all index leader s → Behaves all index leader (replica_round s)
  unfolding replica_round receive receive_with_id payloads
  round-Behaves s h = elim (List-cases s.from_clients.messageq) [
    | inl f ↦ rw (replica_round, receive, receive_with_id, f) h
    | inr (m, rest, f) ↦ record {
      handled = h.handled ++ (m.0 ∷ []);
      waits = ground (arith, f, h.waits, append_assoc h.handled (m.0 ∷ []) (payloads rest));
      same_index = ground (arith, f, h.same_index);
      same_leader = ground (arith, f, h.same_leader);
      leads = λ e. ground (
        arith,
        f,
        e,
        h.same_index,
        h.same_leader,
        h.leads e,
        run-append init h.handled m.0,
        answers-append init h.handled m.0,
      );
      follows = λ e. ground (
        arith,
        redirection_to-redirected_to leader m.0,
        f,
        e,
        h.same_index,
        h.same_leader,
        h.follows e,
        map-append (redirected_to leader) h.handled (m.0 ∷ []),
      );
    }
  ]

  arrival-Behaves :
      (req : Request) (s : PtPaxosReplica)
      → Behaves all index leader s
      → Behaves
          (all ++ (req ∷ []))
          index
          leader
          (record s { from_clients = enqueue s.from_clients (req, []) })
  unfolding enqueue payloads
  arrival-Behaves req s h = record {
    handled = h.handled;
    waits =
        ap (λ t. h.handled ++ t) (payloads-append s.from_clients.messageq ((req, []) ∷ []))
        ∙ sym (append_assoc h.handled (payloads s.from_clients.messageq) (req ∷ []))
        ∙ ap (λ t. t ++ (req ∷ [])) h.waits;
    same_index = h.same_index;
    same_leader = h.same_leader;
    leads = h.leads;
    follows = h.follows;
  }

run-Behaves :
    (es : List ServiceEvent) (all : List Request) (index leader : ℕ) (s : PtPaxosReplica)
    → Behaves all index leader s
    → Behaves (all ++ arrivals es) index leader (replica_run es s)
unfolding replica_run arrivals
run-Behaves [] all i l s h = rw (append_nil all) h
run-Behaves (on_arrival req ∷ es) all i l s h = rw⁻¹ (append_assoc all (req ∷ []) (arrivals es)) (
    run-Behaves es (all ++ (req ∷ [])) i l
      (record s { from_clients = enqueue s.from_clients (req, []) })
      (arrival-Behaves all i l req s h))
run-Behaves (on_round ∷ es) all i l s h =
    run-Behaves es all i l (replica_round s) (round-Behaves all i l s h)

-- Whatever the order of arrivals and rounds, a replica has handled the first of the requests that
-- arrived, in order, and the others wait: the leader has answered them as one pancydb does; any
-- other replica has sent for each a redirection that has its serial number and names the leader,
-- and its database is the initial one.
pub replica_run-Behaves :
    (index leader : ℕ) (es : List ServiceEvent)
    → Behaves (arrivals es) index leader (replica_run es (initialize index leader))
unfolding run answers payloads
replica_run-Behaves i l es = run-Behaves es [] i l (initialize i l) (record {
  handled = [];
  waits = refl;
  same_index = refl;
  same_leader = refl;
  leads = λ e. (refl, refl);
  follows = λ e. (refl, refl);
})

-- What one round sends for a request.
unfoldable reply : PtPaxosReplica → Request → Response
reply s req =
    if s.index == s.leader_index then (process_req s.db req).1 else redirected_to s.leader_index req

unfoldable replies : PtPaxosReplica → List Request → List Response
replies s reqs =
    if s.index == s.leader_index then answers s.db reqs else map (redirected_to s.leader_index) reqs

unfoldable handled_one : Request × Bytes → List (Request × Bytes) → PtPaxosReplica → PtPaxosReplica
handled_one m ms s = record s {
  from_clients = record { messageq = ms };
  sent = s.sent ++ (reply s m.0 ∷ []);
  db = if s.index == s.leader_index then (process_req s.db m.0).0 else s.db;
}

replica_round_lem :
    (m : Request × Bytes) (ms : List (Request × Bytes)) (s : PtPaxosReplica)
    → s.from_clients.messageq ≡ m ∷ ms
    → replica_round s ≡ handled_one m ms s
unfolding replica_round receive receive_with_id handled_one reply
replica_round_lem m ms s q = ground (arith, q, redirection_to-redirected_to s.leader_index m.0)

replies_lem :
    (m : Request × Bytes) (ms : List (Request × Bytes)) (s : PtPaxosReplica) (rs : List Request)
    → replies s (m.0 ∷ rs) ≡ reply s m.0 ∷ replies (handled_one m ms s) rs
unfolding replies reply handled_one answers
replies_lem m ms s rs = ground arith

replies_nil : (s : PtPaxosReplica) → replies s [] ≡ []
unfolding replies answers
replies_nil s = ground arith

replica_drain :
    (ms : List (Request × Bytes)) (s : PtPaxosReplica)
    → s.from_clients.messageq ≡ ms
    → (replica_run (rounds (length ms)) s).sent ≡ s.sent ++ replies s (payloads ms)
unfolding replica_run rounds payloads handled_one
replica_drain [] s q = sym (append_nil s.sent) ∙ ap (λ t. s.sent ++ t) (sym (replies_nil s))
replica_drain (m ∷ ms) s q =
    ap (λ t. (replica_run (rounds (length ms)) t).sent) (replica_round_lem m ms s q)
    ∙ replica_drain ms (handled_one m ms s) refl
    ∙ append_assoc s.sent (reply s m.0 ∷ []) (replies (handled_one m ms s) (payloads ms))
    ∙ ap (λ t. s.sent ++ t) (sym (replies_lem m ms s (payloads ms)))

-- As many rounds as requests wait handle them all: the leader answers them in order as its database
-- does, any other replica sends for each a redirection that has its serial number and names the
-- leader.
pub replica_drains :
    (s : PtPaxosReplica)
    → let end = replica_run (rounds (length s.from_clients.messageq)) s in
      let asked = payloads s.from_clients.messageq in
      (s.index ≡ s.leader_index → end.sent ≡ s.sent ++ answers s.db asked)
      × (s.index ≢ s.leader_index → end.sent ≡ s.sent ++ map (redirected_to s.leader_index) asked)
unfolding replies
replica_drains s = ground (arith, replica_drain s.from_clients.messageq s refl)
