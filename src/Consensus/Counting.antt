-- ===== src/Consensus/Counting.antt =====
-- What a leader's counting keeps, pset2/ctconsensus.cc: phases 2 and 5.
use mathlib.Core.Path.{subst}
use cs2620_s26_psets.Base.{
  ℕ, true, false, [], ◌∷◌, some, ◌≡◌, ◌∙◌, ◌≤◌, ◌<◌, ◌/◌, arith, List, length, All, if◌then◌else◌,
  Bool-cases, All-map_of, leb, inl, sym, ltb, inr, ◌+◌, ap,
}
use cs2620_s26_psets.Consensus.Msgs.{m_prepare, m_ack, Message, propose_message}
use cs2620_s26_psets.Consensus.Server.{
  await_prepare, await_propose, await_ack, Server, take_prepare, take_ack, await, to_all,
}
use cs2620_s26_psets.Consensus.World.{World, Bounded, Safe, Known, Chosen}
use cs2620_s26_psets.Consensus.Facts.{Reads, Base, MsgOk, PhaseFor, MsgFor}
use cs2620_s26_psets.Consensus.Once.{occurrences}
use cs2620_s26_psets.Bytes.{Bytes}
use cs2620_s26_psets.Consensus.Moves.{Goal}
use cs2620_s26_psets.Consensus.Takes.{wait-Goal}
use cs2620_s26_psets.Consensus.Steps.{finish-Goal, advance-Goal}
use cs2620_s26_psets.Consensus.Proposals.{propose-Goal}

Bounded-weaker :
    (w : World) (i round r r' : ℕ) → r ≤ r' → Bounded w i round r → Bounded w i round r'
Bounded-weaker w i round r r' a b q k v = omega (arith, b q k v)

module _ (n j : ℕ) (w : World) (s : Server) (reads : Reads n w j s) (h : Base n w j s)
    (safe : Safe n w) (m : Message) (same : m.round ≡ s.round) (ok : MsgOk n w m)
    (once : (i : ℕ) → occurrences i (m.sender ∷ s.counted) ≤ 1) where
  -- With the color c of round r, the latest that the leader knows.
  counted_told :
      (k r : ℕ)
      → PhaseFor n w j s (await_prepare k)
      → MsgFor n w m m_prepare
      → s.color_round ≤ r
      → m.color_round ≤ r
      → All (λ i. (i < n) × (s.round ≤ w.rounds i) × Bounded w i s.round r) (m.sender ∷ s.counted)
  counted_told k r (known, le, leads, fresh, size, told) (inside, known', le', entered, bound) a b =
      (
        (
          inside,
          omega (arith, entered, same),
          Bounded-weaker w m.sender s.round m.color_round r b
              (subst (λ q. Bounded w m.sender q m.color_round) same bound),
        ),
        All-map_of s.counted (λ i (x, y, z). (x, y, Bounded-weaker w i s.round s.color_round r a z))
            told,
      )

  prepare-Goal_with :
      (k : ℕ) (c : Bytes) (r : ℕ)
      → PhaseFor n w j s (await_prepare k)
      → MsgFor n w m m_prepare
      → Known w c r
      → r < s.round
      → s.color_round ≤ r
      → m.color_round ≤ r
      → Goal n j w (
          if leb (k + 1) (s.n / 2)
          then (
            await
                (await_prepare (k + 1))
                (record s { color = c; color_round = r; counted = m.sender ∷ s.counted }),
            [],
          )
          else (
            await await_propose (record s {
              color = c;
              color_round = r;
              counted = [];
              proposed = (s.round, c) ∷ s.proposed;
            }),
            to_all s.n (propose_message s.round c),
          ))
  prepare-Goal_with k c r ph mf known le a b =
      let (known0, le0, leads, fresh, size, told) = ph in
      let all_told = counted_told k r ph mf a b in
      elim (Bool-cases (leb (k + 1) (s.n / 2))) [
        | inl e ↦ rw e (
            wait-Goal n j w s reads h safe c r (await_prepare (k + 1)) (m.sender ∷ s.counted) a
              (omega (arith, le)) (known, le, leads, fresh, omega (arith, size), all_told))
        | inr e ↦ rw e (
            propose-Goal n j w s reads h safe c r (m.sender ∷ s.counted) leads fresh known le a
              (record {
                inside = All-map_of (m.sender ∷ s.counted) (λ i x. x.0) all_told;
                once = once;
                majority = majority_of k size e;
              })
              (All-map_of (m.sender ∷ s.counted) (λ i (x, y, z). (y, z)) all_told))
      ]
    where
      majority_of :
          (k : ℕ)
          → length s.counted ≡ k
          → leb (k + 1) (s.n / 2) ≡ false
          → n / 2 < length (m.sender ∷ s.counted)
      majority_of k size e = rw (sym h.size_n) (ground (arith, size, e))

  pub prepare-Goal :
      (k : ℕ)
      → PhaseFor n w j s (await_prepare k)
      → MsgFor n w m m_prepare
      → Goal n j w (take_prepare k m s)
  unfolding take_prepare
  prepare-Goal k ph mf = elim (Bool-cases (ltb s.color_round m.color_round)) [
    | inl e ↦
        rw (take_prepare, e)
          (prepare-Goal_with k m.color m.color_round ph mf mf.1 (omega (arith, mf.2, same))
            (ground (arith, e)) (omega arith))
    | inr e ↦
        rw (take_prepare, e)
          (prepare-Goal_with k s.color s.color_round ph mf ph.0 ph.1 (omega arith)
            (ground (arith, e)))
  ]

  -- A majority has acknowledged.
  majority_wins :
      (ids : List ℕ)
      → w.proposal s.round ≡ some s.color
      → ((i : ℕ) → occurrences i ids ≤ 1)
      → s.n / 2 < length ids
      → All (λ i. (i < n) × (w.acked i s.round ≡ true)) ids
      → Chosen n w s.color
  majority_wins ids proposal once' big acks = record {
    at = s.round;
    by = ids;
    positive = h.started;
    quorum = record {
      inside = All-map_of ids (λ i x. x.0) acks;
      once = once';
      majority = rw (sym h.size_n) big;
    };
    all_acked = All-map_of ids (λ i x. x.1) acks;
    proposed_at = proposal;
  }

  pub ack-Goal :
      (a t : ℕ)
      → PhaseFor n w j s (await_ack a t)
      → MsgFor n w m m_ack
      → Goal n j w (take_ack a t m s)
  unfolding take_ack occurrences
  ack-Goal a t (known, leads, proposal, size, acks) (inside, voted) = elim (Bool-cases m.ack) [
    | inl v ↦
        let all_acks : All (λ i. (i < n) × (w.acked i s.round ≡ true)) (m.sender ∷ s.counted) =
          ((inside, ap (λ q. w.acked m.sender q) (sym same) ∙ voted v), acks) in
        elim (Bool-cases (leb (t + 1) (s.n / 2))) [
          | inl u ↦
              rw (take_ack, u, v)
                (wait-Goal n j w s reads h safe s.color s.color_round (await_ack (a + 1) (t + 1))
                  (m.sender ∷ s.counted) (omega arith) h.color_le
                  (known, leads, proposal, omega (arith, size), all_acks))
          | inr u ↦ elim (Bool-cases (ltb (s.n / 2) (a + 1))) [
            | inl z ↦
                rw (take_ack, u, v, z)
                  (finish-Goal n j w s reads h safe s.color (
                    majority_wins (m.sender ∷ s.counted) proposal once (ground (arith, size, z))
                      all_acks))
            | inr z ↦ rw (take_ack, u, v, z) (advance-Goal n j w s reads h safe known)
          ]
        ]
    | inr v ↦ elim (Bool-cases (leb (t + 1) (s.n / 2))) [
      | inl u ↦
          rw (take_ack, u, v)
            (wait-Goal n j w s reads h safe s.color s.color_round (await_ack a (t + 1)) s.counted
              (omega arith) h.color_le (known, leads, proposal, size, acks))
      | inr u ↦ elim (Bool-cases (ltb (s.n / 2) a)) [
        | inl z ↦
            rw (take_ack, u, v, z)
              (finish-Goal n j w s reads h safe s.color (
                majority_wins s.counted proposal (λ i. omega (arith, once i))
                  (ground (arith, size, z)) acks))
        | inr z ↦ rw (take_ack, u, v, z) (advance-Goal n j w s reads h safe known)
      ]
    ]
  ]
