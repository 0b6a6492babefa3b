-- ===== src/Consensus/Agreement.antt =====
-- The decisions of pset2/ctconsensus.cc: runs, servers and the observer.
use mathlib.Core.Path.{subst}
use cs2620_s26_psets.Base.{
  ℕ, [], ◌∷◌, some, ◌≡◌, ◌≤◌, ◌<◌, ◌==◌, ◌&&◌, ◌⊎◌, List, get_elem?, Option-cases, arith, inl, refl,
  inr, All-append, Bool-cases, ltb, ltb→lt,
}
use cs2620_s26_psets.Consensus.Colors.{All-remove_at, All-get_elem?}
use cs2620_s26_psets.Consensus.Msgs.{to_server, to_nancy, m_decide, Message, Sent}
use cs2620_s26_psets.Consensus.Net.{
  on_message, on_stash, on_failure, consensus_step, start_system, receive_message, consensus_run,
  System, ConsensusEvent, remove_at,
}
use cs2620_s26_psets.Consensus.Server.{finished, from_network, from_stash, handle_message, failure}
use cs2620_s26_psets.Consensus.Once.{Counted, held}
use cs2620_s26_psets.Consensus.Facts.{PhaseOk, PhaseFor, MsgOk}
use cs2620_s26_psets.Bytes.{Bytes}
use cs2620_s26_psets.Consensus.OnceNet.{Once, step-Once, pair_le, flying_le}
use cs2620_s26_psets.Consensus.OnceStart.{start-Once}
use cs2620_s26_psets.Consensus.Invariant.{Inv, FlightOk, act-Inv, as_server}
use cs2620_s26_psets.Consensus.World.{Chosen}
use cs2620_s26_psets.Consensus.Moves.{world_of}
use cs2620_s26_psets.Consensus.Takes.{MsgOk-of}
use cs2620_s26_psets.Consensus.Handles.{handle-Goal, from_stash-Goal, failure-Goal}
use cs2620_s26_psets.Consensus.OneColor.{Chosen-unique}
use cs2620_s26_psets.Consensus.Start.{start-Inv}

-- What the network and the servers hold together is at most one.
held_le : (k : Counted) (q i l : ℕ) (y : System) → Once y → held k q i (y.servers l) ≤ 1
held_le k q i l y h = omega (arith, pair_le k q i l y h)

module _ (n : ℕ) where
  taken : (p : ℕ) (y : System) → Inv n y → Inv n (record y { in_flight = remove_at y.in_flight p })
  taken p y h = record {
    size_is = h.size_is;
    all_base = h.all_base;
    all_phase = h.all_phase;
    flight_ok = All-remove_at (FlightOk n (world_of n y.servers)) y.in_flight p h.flight_ok;
    observed_ok = h.observed_ok;
    all_safe = h.all_safe;
  }

  receive-Inv :
      (p : ℕ) (o : Sent) (y : System)
      → get_elem? y.in_flight p ≡ some o
      → Inv n y
      → Once y
      → Inv n (receive_message p o y)
  unfolding receive_message from_network FlightOk
  receive-Inv p (to_nancy, m) y e h once = record {
    size_is = h.size_is;
    all_base = h.all_base;
    all_phase = h.all_phase;
    flight_ok = All-remove_at (FlightOk n (world_of n y.servers)) y.in_flight p h.flight_ok;
    observed_ok = All-append (MsgOk n (world_of n y.servers)) y.to_observer (m ∷ []) h.observed_ok (
      All-get_elem? (FlightOk n (world_of n y.servers)) y.in_flight p (to_nancy, m) h.flight_ok e,
      tt,
    );
    all_safe = h.all_safe;
  }
  receive-Inv p (to_server j, m) y e h once =
      let (inside, ok) =
        All-get_elem? (FlightOk n (world_of n y.servers)) y.in_flight p (to_server j, m) h.flight_ok
          e in
      elim (Bool-cases ((y.servers j).stash_size == 0)) [
        | inl f ↦
            rw (receive_message, f)
              (act-Inv n j (record y { in_flight = remove_at y.in_flight p })
                (handle_message m (y.servers j)) (taken p y h)
                (handle-Goal n j (world_of n y.servers) (y.servers j)
                  (as_server n y.servers j (y.servers j) refl) (h.all_base j inside) h.all_safe
                  (h.all_phase j inside) m ok (λ k q i. flying_le k q i p j m y e once)))
        | inr f ↦ rw (receive_message, f) h
      ]

  step-Inv : (e : ConsensusEvent) (y : System) → Inv n y → Once y → Inv n (consensus_step e y)
  unfolding consensus_step
  step-Inv (on_message p) y h once = elim (Option-cases (get_elem? y.in_flight p)) [
    | inl f ↦ rw (consensus_step, f) h
    | inr (o, f) ↦ rw (consensus_step, f) (receive-Inv p o y f h once)
  ]
  step-Inv (on_stash j) y h once = elim (Bool-cases (ltb j y.size)) [
    | inl f ↦
        let inside : j < n = omega (arith, ltb→lt j y.size f, h.size_is) in
        rw (consensus_step, f)
          (act-Inv n j y (from_stash (y.servers j)) h (
            from_stash-Goal n j (world_of n y.servers) (y.servers j)
              (as_server n y.servers j (y.servers j) refl) (h.all_base j inside) h.all_safe
              (h.all_phase j inside) (λ k q i. held_le k q i j y once)))
    | inr f ↦ rw (consensus_step, f) h
  ]
  step-Inv (on_failure j) y h once =
      elim (Bool-cases (ltb j y.size && (y.servers j).stash_size == 0)) [
        | inl f ↦
            let inside : j < n = ground (arith, f, h.size_is) in
            rw (consensus_step, f)
              (act-Inv n j y (failure (y.servers j)) h (
                failure-Goal n j (world_of n y.servers) (y.servers j)
                  (as_server n y.servers j (y.servers j) refl) (h.all_base j inside) h.all_safe
                  (h.all_phase j inside)))
        | inr f ↦ rw (consensus_step, f) h
      ]

  run-Inv : (es : List ConsensusEvent) (y : System) → Inv n y → Once y → Inv n (consensus_run es y)
  unfolding consensus_run
  run-Inv [] y h once = h
  run-Inv (e ∷ es) y h once =
      run-Inv es (consensus_step e y) (step-Inv e y h once) (step-Once e y once)

-- A color that a server has decided, or that Nancy is told of.
unfoldable pub IsDecision : ℕ → System → Bytes → Type 0
IsDecision n y c =
    ((i : ℕ) × (i < n) × ((y.servers i).phase ≡ finished) × ((y.servers i).color ≡ c))
    ⊎ ((k : ℕ) × (m : Message) × (get_elem? y.to_observer k ≡ some m)
        × (m.type ≡ m_decide)
        × (m.color ≡ c))

IsDecision-Chosen :
    (n : ℕ) (y : System) (c : Bytes)
    → Inv n y
    → IsDecision n y c
    → Chosen n (world_of n y.servers) c
unfolding IsDecision PhaseOk
IsDecision-Chosen n y c h (inl (i, inside, done, same)) =
    subst (Chosen n (world_of n y.servers)) same
      (subst (λ p. PhaseFor n (world_of n y.servers) i (y.servers i) p) done (h.all_phase i inside))
IsDecision-Chosen n y c h (inr (k, m, got, type, same)) =
    subst (Chosen n (world_of n y.servers)) same (
      MsgOk-of n (world_of n y.servers) m m_decide type
        (All-get_elem? (MsgOk n (world_of n y.servers)) y.to_observer k m h.observed_ok got))

-- Whatever the number of servers, their colors and the order of the events, any two colors that
-- servers have decided, or that Nancy has received in a DECIDE, are the same.
pub consensus_agreement :
    (n : ℕ) (colors : ℕ → Bytes) (es : List ConsensusEvent) (c d : Bytes)
    → IsDecision n (consensus_run es (start_system n colors)) c
    → IsDecision n (consensus_run es (start_system n colors)) d
    → c ≡ d
consensus_agreement n colors es c d a b =
    let y = consensus_run es (start_system n colors) in
    let h : Inv n y =
      run-Inv n es (start_system n colors) (start-Inv n colors) (start-Once n colors) in
    Chosen-unique n (world_of n y.servers) c d h.all_safe (IsDecision-Chosen n y c h a)
      (IsDecision-Chosen n y d h b)
