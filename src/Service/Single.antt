-- ===== src/Service/Single.antt =====
-- pt_single_instance of pset3/pt-single.cc: one server with one database.
use cs2620_s26_psets.Base.{
  zero, ℕ, ◌+◌, ◌≡◌, refl, sym, ap, ◌∙◌, inl, inr, Bool, true, false, none, some, List, [], ◌∷◌,
  ◌++◌, arith, if◌then◌else◌, Bool-cases, List-cases, append_nil, append_assoc, suc, length, ◌<◌,
  ◌^◌,
}
use cs2620_s26_psets.Netsim.Defs.{Port, enqueue, receive, receive_with_id, new_port}
use cs2620_s26_psets.Pancy.Msgs.{Request, Response}
use cs2620_s26_psets.Pancy.Db.{process_req, Pancydb, init, run}
use cs2620_s26_psets.Netsim.Fifo.{payloads, payloads-append}
use cs2620_s26_psets.Backup.Defs.{periodic_check}
use cs2620_s26_psets.Pancy.Spec.{answers}
use cs2620_s26_psets.Backup.Logs.{answers-append, run-append}
use cs2620_s26_psets.Bytes.{Bytes}

-- The responses are kept in the order they are sent, before any loss.
pub record PtSingle : Type 0 where
  pub in_port : Port Request
  pub sent : List Response
  pub db : Pancydb
  pub loops : ℕ
  pub returned : Bool

abbrev pub start_single : PtSingle
start_single = record { in_port = new_port; sent = []; db = init; loops = 0; returned = false }

-- One round of `run`; on an empty port it waits.
unfoldable pub single_round : PtSingle → PtSingle
single_round s = if s.returned then s else elim (receive s.in_port) [
  | none ↦ s
  | some (req, port) ↦ record {
    in_port = port;
    sent = s.sent ++ ((process_req s.db req).1 ∷ []);
    db = (process_req s.db req).0;
    loops = s.loops + 1;
    returned = periodic_check (s.loops + 1) (process_req s.db req).0;
  }
]

-- A request arrives, or the server goes on.
pub data ServiceEvent : Type 0 where
  on_arrival : Request → ServiceEvent
  on_round : ServiceEvent

unfoldable pub single_run : List ServiceEvent → PtSingle → PtSingle
single_run [] s = s
single_run (on_arrival req ∷ es) s =
    single_run es (record s { in_port = enqueue s.in_port (req, []) })
single_run (on_round ∷ es) s = single_run es (single_round s)

unfoldable pub arrivals : List ServiceEvent → List Request
arrivals [] = []
arrivals (on_arrival req ∷ es) = req ∷ arrivals es
arrivals (on_round ∷ es) = arrivals es

-- The requests so far are those that are served, in order, and those that wait.
pub record Serves (all : List Request) (s : PtSingle) : Type 0 where
  pub served : List Request
  pub waits : served ++ payloads s.in_port.messageq ≡ all
  pub answered : s.sent ≡ answers init served
  pub database : s.db ≡ run init served

returned_lem : (s : PtSingle) → s.returned ≡ true → single_round s ≡ s
unfolding single_round
returned_lem s e = ground (arith, e)

no_request_lem : (s : PtSingle) → s.in_port.messageq ≡ [] → single_round s ≡ s
unfolding single_round receive receive_with_id
no_request_lem s e = ground (arith, e)

round-Serves : (all : List Request) (s : PtSingle) → Serves all s → Serves all (single_round s)
unfolding single_round receive receive_with_id payloads
round-Serves all s h = elim (Bool-cases s.returned) [
  | inl e ↦ rw (returned_lem s e) h
  | inr e ↦ elim (List-cases s.in_port.messageq) [
    | inl f ↦ rw (no_request_lem s f) h
    | inr (m, rest, f) ↦ record {
      served = h.served ++ (m.0 ∷ []);
      waits = ground (arith, e, f, h.waits, append_assoc h.served (m.0 ∷ []) (payloads rest));
      answered = ground (arith, e, f, h.database, h.answered, answers-append init h.served m.0);
      database = ground (arith, e, f, h.database, run-append init h.served m.0);
    }
  ]
]

arrival-Serves :
    (all : List Request) (req : Request) (s : PtSingle)
    → Serves all s
    → Serves (all ++ (req ∷ [])) (record s { in_port = enqueue s.in_port (req, []) })
unfolding enqueue payloads
arrival-Serves all req s h = record {
  served = h.served;
  waits =
      ap (λ t. h.served ++ t) (payloads-append s.in_port.messageq ((req, []) ∷ []))
      ∙ sym (append_assoc h.served (payloads s.in_port.messageq) (req ∷ []))
      ∙ ap (λ t. t ++ (req ∷ [])) h.waits;
  answered = h.answered;
  database = h.database;
}

run-Serves :
    (es : List ServiceEvent) (all : List Request) (s : PtSingle)
    → Serves all s
    → Serves (all ++ arrivals es) (single_run es s)
unfolding single_run arrivals
run-Serves [] all s h = rw (append_nil all) h
run-Serves (on_arrival req ∷ es) all s h = rw⁻¹ (append_assoc all (req ∷ []) (arrivals es)) (
    run-Serves es (all ++ (req ∷ [])) (record s { in_port = enqueue s.in_port (req, []) })
      (arrival-Serves all req s h))
run-Serves (on_round ∷ es) all s h = run-Serves es all (single_round s) (round-Serves all s h)

-- Whatever the order of arrivals and rounds, the server has answered the first of the requests
-- that arrived, in order, as one pancydb does, and the others wait.
pub single_run-Serves : (es : List ServiceEvent) → Serves (arrivals es) (single_run es start_single)
unfolding run answers payloads
single_run-Serves es =
    run-Serves es [] start_single
      (record { served = []; waits = refl; answered = refl; database = refl })

unfoldable pub rounds : ℕ → List ServiceEvent
rounds zero = []
rounds (suc n) = on_round ∷ rounds n

periodic_lem : (n : ℕ) (d : Pancydb) → n + 1 < 2 ^ 20 → periodic_check (n + 1) d ≡ false
unfolding periodic_check
periodic_lem n d h = ground (arith, h)

unfoldable served_one : Request × Bytes → List (Request × Bytes) → PtSingle → PtSingle
served_one m ms s = record {
  in_port = record { messageq = ms };
  sent = s.sent ++ ((process_req s.db m.0).1 ∷ []);
  db = (process_req s.db m.0).0;
  loops = s.loops + 1;
  returned = periodic_check (s.loops + 1) (process_req s.db m.0).0;
}

round_lem :
    (m : Request × Bytes) (ms : List (Request × Bytes)) (s : PtSingle)
    → s.in_port.messageq ≡ m ∷ ms
    → s.returned ≡ false
    → single_round s ≡ served_one m ms s
unfolding single_round receive receive_with_id served_one
round_lem m ms s q r = ground (arith, q, r)

drain :
    (ms : List (Request × Bytes)) (s : PtSingle)
    → s.in_port.messageq ≡ ms
    → s.returned ≡ false
    → s.loops + length ms < 2 ^ 20
    → (single_run (rounds (length ms)) s).sent ≡ s.sent ++ answers s.db (payloads ms)
unfolding single_run rounds answers payloads served_one
drain [] s q r b = sym (append_nil s.sent)
drain (m ∷ ms) s q r b =
    ap (λ t. (single_run (rounds (length ms)) t).sent) (round_lem m ms s q r)
    ∙ drain ms (served_one m ms s) refl
        (periodic_lem s.loops (process_req s.db m.0).0 (omega (arith, b))) (omega (arith, b))
    ∙ append_assoc s.sent ((process_req s.db m.0).1 ∷ [])
        (answers (process_req s.db m.0).0 (payloads ms))

-- A server that has not returned answers all requests that wait, in as many rounds, as long as it
-- has not served 2^20 requests.
pub single_drains :
    (s : PtSingle)
    → s.returned ≡ false
    → s.loops + length s.in_port.messageq < 2 ^ 20
    → (single_run (rounds (length s.in_port.messageq)) s).sent
      ≡ s.sent ++ answers s.db (payloads s.in_port.messageq)
single_drains s r b = drain s.in_port.messageq s refl r b
