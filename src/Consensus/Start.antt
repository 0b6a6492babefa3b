-- ===== src/Consensus/Start.antt =====
-- The invariant at the start of a run of pset2/ctconsensus.cc.
use cs2620_s26_psets.Base.{ℕ, zero, suc, false, [], ◌≤◌, ◌<◌, All, arith, inl, refl, All-append}
use cs2620_s26_psets.Consensus.Net.{start_system, new_server, first_messages, from_sender}
use cs2620_s26_psets.Consensus.Server.{finished, start_round, await}
use cs2620_s26_psets.Consensus.Facts.{PhaseOk, color_at, has_round, Base, OutOk}
use cs2620_s26_psets.Bytes.{Bytes}
use cs2620_s26_psets.Consensus.Invariant.{Inv, FlightOk, from_sender-Ok}
use cs2620_s26_psets.Consensus.World.{Safe}
use cs2620_s26_psets.Consensus.Moves.{world_of}
use cs2620_s26_psets.Consensus.Steps.{start_round-Ok}

start-Ok :
    (n i : ℕ) (colors : ℕ → Bytes)
    → i < n
    → let w = world_of n (λ i. (new_server i n (colors i)).0) in
      PhaseOk n w i (new_server i n (colors i)).0 × All (OutOk n w i) (new_server i n (colors i)).1
unfolding new_server start_round await color_at has_round
start-Ok n i colors k =
    start_round-Ok n i (world_of n (λ i. (new_server i n (colors i)).0))
      (record {
        id = i;
        n = n;
        color = colors i;
        round = 1;
        color_round = 0;
        stash = [];
        decided = false;
        phase = finished;
        stash_size = 0;
        counted = [];
        voted = [];
        proposed = [];
      })
      refl refl k (omega arith) (inl refl) (λ e. refl) (omega arith) (λ q a e. absurd (cc e))

first_messages-Ok :
    (n count : ℕ) (colors : ℕ → Bytes)
    → count ≤ n
    → All
        (FlightOk n (world_of n (λ i. (new_server i n (colors i)).0)))
        (first_messages count n colors)
unfolding first_messages
first_messages-Ok n zero colors k = tt
first_messages-Ok n (suc count) colors k =
    let w = world_of n (λ i. (new_server i n (colors i)).0) in
    All-append (FlightOk n w) (first_messages count n colors)
      (from_sender count (new_server count n (colors count)).1)
      (first_messages-Ok n count colors (omega (arith, k)))
      (from_sender-Ok n w count (new_server count n (colors count)).1
        (start-Ok n count colors (omega (arith, k))).1)

start-Base :
    (n i : ℕ) (colors : ℕ → Bytes)
    → i < n
    → Base n (world_of n (λ i. (new_server i n (colors i)).0)) i (new_server i n (colors i)).0
unfolding new_server start_round await color_at has_round
start-Base n i colors k = record {
  ident = refl;
  size_n = refl;
  inside_n = k;
  started = omega arith;
  color_le = omega arith;
  votes_le = λ q a. absurd (cc a);
  fresh_rounds = λ q a e. refl;
  stash_ok = tt;
}

start-Safe : (n : ℕ) (colors : ℕ → Bytes) → Safe n (world_of n (λ i. (new_server i n (colors i)).0))
unfolding new_server start_round await color_at
start-Safe n colors r r' c a b e = absurd (cc e)

pub start-Inv : (n : ℕ) (colors : ℕ → Bytes) → Inv n (start_system n colors)
unfolding start_system
start-Inv n colors = record {
  size_is = refl;
  all_base = λ i k. start-Base n i colors k;
  all_phase = λ i k. (start-Ok n i colors k).0;
  flight_ok = first_messages-Ok n n colors (omega arith);
  observed_ok = tt;
  all_safe = start-Safe n colors;
}
