-- ===== src/Consensus/Invariant.antt =====
-- The invariant of a run of pset2/ctconsensus.cc.
use mathlib.Core.Path.{subst}
use cs2620_s26_psets.Base.{
  ℕ, [], ◌∷◌, ◌≡◌, ◌≢◌, ◌∙◌, ◌<◌, ◌==◌, ◌%◌, Bool-cases, if◌then◌else◌, ==_iff, List, All, refl,
  inl, inr, ap, sym, All-append, All-map_of,
}
use cs2620_s26_psets.Consensus.Msgs.{to_server, to_nancy, Sent}
use cs2620_s26_psets.Consensus.Net.{System, from_sender, set_server}
use cs2620_s26_psets.Consensus.Server.{Server}
use cs2620_s26_psets.Consensus.World.{World, Later, Safe}
use cs2620_s26_psets.Consensus.Facts.{
  Base, Reads, OutOk, MsgOk-persists, MsgOk, PhaseOk, PhaseFor-persists, has_round, Base-persists,
  color_at,
}
use cs2620_s26_psets.Consensus.Moves.{Moves, world_of, Goal, Done}

-- A message on its way.
unfoldable pub FlightOk : ℕ → World → Sent → Type 0
FlightOk n w (to_server d, m) = (d < n) × MsgOk n w m
FlightOk n w (to_nancy, m) = MsgOk n w m

pub from_sender-Ok :
    (n : ℕ) (w : World) (j : ℕ) (out : List Sent)
    → All (OutOk n w j) out
    → All (FlightOk n w) (from_sender j out)
unfolding from_sender OutOk FlightOk
from_sender-Ok n w j [] h = tt
from_sender-Ok n w j ((to_server d, m) ∷ out) h = (h.0, from_sender-Ok n w j out h.1)
from_sender-Ok n w j ((to_nancy, m) ∷ out) h = (h.0, from_sender-Ok n w j out h.1)

FlightOk-persists :
    (n j : ℕ) (w w' : World) → Later n j w w' → (o : Sent) → FlightOk n w o → FlightOk n w' o
unfolding FlightOk
FlightOk-persists n j w w' l (to_server d, m) h = (h.0, MsgOk-persists n j w w' l m h.1)
FlightOk-persists n j w w' l (to_nancy, m) h = MsgOk-persists n j w w' l m h

-- What holds of the system, n servers, in a run.
pub record Inv (n : ℕ) (y : System) : Type 0 where
  pub size_is : y.size ≡ n
  pub all_base : (i : ℕ) → i < n → Base n (world_of n y.servers) i (y.servers i)
  pub all_phase : (i : ℕ) → i < n → PhaseOk n (world_of n y.servers) i (y.servers i)
  pub flight_ok : All (FlightOk n (world_of n y.servers)) y.in_flight
  pub observed_ok : All (MsgOk n (world_of n y.servers)) y.to_observer
  pub all_safe : Safe n (world_of n y.servers)

-- One server of all is replaced.
abbrev put : (ℕ → Server) → ℕ → Server → ℕ → Server
put f j s i = if i == j then s else f i

put-here : (f : ℕ → Server) (j : ℕ) (s : Server) → put f j s j ≡ s
put-here f j s = rw ((==_iff j j).1 refl) refl

put-other : (f : ℕ → Server) (j : ℕ) (s : Server) (i : ℕ) → i ≢ j → put f j s i ≡ f i
put-other f j s i ne = elim (Bool-cases (i == j)) [
  | inl e ↦ absurd (ne ((==_iff i j).0 e))
  | inr e ↦ rw e refl
]

-- The world reads as any of its servers.
pub as_server : (n : ℕ) (f : ℕ → Server) (i : ℕ) (s : Server) → f i ≡ s → Reads n (world_of n f) i s
as_server n f i s e = record {
  read_round = ap (λ x. x.round) e;
  read_acked = λ q. ap (λ x. has_round q x.voted) e;
  read_proposal = λ q k. ap (λ z. color_at q (f z).proposed) k ∙ ap (λ x. color_at q x.proposed) e;
}

put-Moves :
    (n j : ℕ) (f : ℕ → Server) (s : Server) → Moves n j (world_of n f) (world_of n (put f j s)) s
put-Moves n j f s = record {
  reads_now = as_server n (put f j s) j s (put-here f j s);
  other_rounds = λ i ne. ap (λ x. x.round) (put-other f j s i ne);
  other_acks = λ i q ne. ap (λ x. has_round q x.voted) (put-other f j s i ne);
  other_proposals = λ q ne. ap (λ x. color_at q x.proposed) (put-other f j s (q % n) ne);
}

module _ (n j : ℕ) (y : System) (r : Server × List Sent) (h : Inv n y)
    (goal : Goal n j (world_of n y.servers) r) where
  abbrev w : World
  w = world_of n y.servers

  abbrev w' : World
  w' = world_of n (put y.servers j r.0)

  done : Done n j w w' r
  done = goal w' (put-Moves n j y.servers r.0)

  servers_fit : (i : ℕ) → i < n → Base n w' i (put y.servers j r.0 i)
  servers_fit i k = elim (Bool-cases (i == j)) [
    | inl e ↦
        let same : i ≡ j = (==_iff i j).0 e in
        subst (λ x. Base n w' x (put y.servers j r.0 x)) (sym same)
          (subst (λ s. Base n w' j s) (sym (put-here y.servers j r.0)) done.base)
    | inr e ↦
        let ne : i ≢ j = λ x. cc (e, (==_iff i j).1 x) in
        let keep = put-other y.servers j r.0 i ne in
        subst (λ s. Base n w' i s) (sym keep)
          (Base-persists n j w w' done.later i (y.servers i) ne
            (as_server n y.servers i (y.servers i) refl)
            (as_server n (put y.servers j r.0) i (y.servers i) keep) (h.all_base i k))
  ]

  phases_fit : (i : ℕ) → i < n → PhaseOk n w' i (put y.servers j r.0 i)
  unfolding PhaseOk
  phases_fit i k = elim (Bool-cases (i == j)) [
    | inl e ↦
        let same : i ≡ j = (==_iff i j).0 e in
        subst (λ x. PhaseOk n w' x (put y.servers j r.0 x)) (sym same)
          (subst (λ s. PhaseOk n w' j s) (sym (put-here y.servers j r.0)) done.phase_ok)
    | inr e ↦
        let ne : i ≢ j = λ x. cc (e, (==_iff i j).1 x) in
        let keep = put-other y.servers j r.0 i ne in
        subst (λ s. PhaseOk n w' i s) (sym keep)
          (PhaseFor-persists n j w w' done.later i (y.servers i)
            (λ q z. done.later.others_stay q (λ x. ne (sym z ∙ x))) (y.servers i).phase
            (h.all_phase i k))
  ]

  -- Server j has done something.
  pub act-Inv : Inv n (set_server j r y)
  unfolding set_server
  act-Inv = record {
    size_is = h.size_is;
    all_base = servers_fit;
    all_phase = phases_fit;
    flight_ok =
        All-append (FlightOk n w') y.in_flight (from_sender j r.1)
          (All-map_of y.in_flight (λ o k. FlightOk-persists n j w w' done.later o k) h.flight_ok)
          (from_sender-Ok n w' j r.1 done.sent_ok);
    observed_ok =
        All-map_of y.to_observer (λ m k. MsgOk-persists n j w w' done.later m k) h.observed_ok;
    all_safe = done.safe;
  }
