-- ===== src/Consensus/Handles.antt =====
-- What every message, and the failure detector, keeps at a server of pset2/ctconsensus.cc.
use mathlib.Core.Path.{subst}
use cs2620_s26_psets.Base.{
  ℕ, true, false, ◌∷◌, ◌≡◌, ◌≤◌, ◌+◌, arith, All, ==_iff, ◌-◌, ap, refl, List,
}
use cs2620_s26_psets.Consensus.Msgs.{m_prepare, m_propose, m_ack, Message, same_type}
use cs2620_s26_psets.Consensus.Server.{
  await_prepare, await_propose, await_ack, Server, Phase, handle_message, failure, from_stash,
  take_prepare, take_propose, take_ack,
}
use cs2620_s26_psets.Consensus.Once.{
  k_prepare, k_ack, held, occurrences, Counted, one_if, is_one, counts_now, type_of, in_list,
}
use cs2620_s26_psets.Consensus.World.{World, Safe}
use cs2620_s26_psets.Consensus.Facts.{PhaseOk, Reads, Base, MsgOk, PhaseFor, PhaseFor-stash}
use cs2620_s26_psets.Consensus.Moves.{Goal}
use cs2620_s26_psets.Consensus.Cases.{stash-elim, failure-elim, handle-elim}
use cs2620_s26_psets.Consensus.Takes.{
  sort-Goal, MsgOk-of, prepare_of, propose_taken, propose_of, ack_of,
}
use cs2620_s26_psets.Consensus.Steps.{stash-Goal}
use cs2620_s26_psets.Consensus.Votes.{acknowledge-Goal}
use cs2620_s26_psets.Consensus.Counting.{prepare-Goal, ack-Goal}

room-once :
    (k : Counted) (m : Message) (s : Server)
    → ((q i : ℕ) → one_if (is_one k q i m) + held k q i s ≤ 1)
    → counts_now k s.phase ≡ true
    → same_type m.type (type_of k) ≡ true
    → m.round ≡ s.round
    → (i : ℕ) → occurrences i (m.sender ∷ s.counted) ≤ 1
unfolding held occurrences
room-once k m s room c t e i =
    ground
      (arith, room s.round i, c, t, (==_iff m.round s.round).1 e, (==_iff s.round s.round).1 refl)

module _ (n j : ℕ) (w : World) (s : Server) (reads : Reads n w j s) (h : Base n w j s)
    (safe : Safe n w) (ph : PhaseOk n w j s) where
  phase_of : (p : Phase) → s.phase ≡ p → PhaseFor n w j s p
  unfolding PhaseOk
  phase_of p e = subst (λ x. PhaseFor n w j s x) e ph

  pub handle-Goal :
      (m : Message)
      → MsgOk n w m
      → ((k : Counted) (q i : ℕ) → one_if (is_one k q i m) + held k q i s ≤ 1)
      → Goal n j w (handle_message m s)
  handle-Goal m ok room =
      handle-elim (Goal n j w) m s
        (λ k e. sort-Goal n j w s reads h safe m_prepare (take_prepare k) m ok ph (λ t same.
          prepare-Goal n j w s reads h safe m same ok
            (room-once k_prepare m s (room k_prepare) (ap (counts_now k_prepare) e) t same) k
            (phase_of (await_prepare k) e) (MsgOk-of n w m m_prepare (prepare_of m.type t) ok)))
        (λ e.
          sort-Goal n j w s reads h safe m_propose take_propose m ok ph
            (λ t same. propose_taken n j w s reads h safe m (propose_of m.type t) same ok))
        (λ a t e. sort-Goal n j w s reads h safe m_ack (take_ack a t) m ok ph (λ u same.
          ack-Goal n j w s reads h safe m same ok
            (room-once k_ack m s (room k_ack) (ap (counts_now k_ack) e) u same) a t
            (phase_of (await_ack a t) e) (MsgOk-of n w m m_ack (ack_of m.type u) ok)))
        (stash-Goal n j w s reads h safe s.stash s.stash_size h.stash_ok ph)

  pub failure-Goal : Goal n j w (failure s)
  failure-Goal =
      failure-elim (Goal n j w) s
        (λ e.
          let (known, le, leads) = phase_of await_propose e in
          acknowledge-Goal n j w s reads h safe false (λ z. absurd (cc z)) known leads)
        (stash-Goal n j w s reads h safe s.stash s.stash_size h.stash_ok ph)

room_rest :
    (k : Counted) (q i : ℕ) (s : Server) (m : Message) (rest : List Message)
    → s.stash ≡ m ∷ rest
    → held k q i s ≤ 1
    → one_if (is_one k q i m)
        + held k q i (record s { stash = rest; stash_size = s.stash_size - 1 })
      ≤ 1
unfolding held in_list
room_rest k q i s m rest e h = omega (arith, ap (in_list k q i) e, h)

pub from_stash-Goal :
    (n j : ℕ) (w : World) (s : Server)
    → Reads n w j s
    → Base n w j s
    → Safe n w
    → PhaseOk n w j s
    → ((k : Counted) (q i : ℕ) → held k q i s ≤ 1)
    → Goal n j w (from_stash s)
unfolding PhaseOk
from_stash-Goal n j w s reads h safe ph room =
    stash-elim (Goal n j w) s (stash-Goal n j w s reads h safe s.stash s.stash_size h.stash_ok ph)
      (λ m rest e.
        let all_ok : MsgOk n w m × All (MsgOk n w) rest =
          subst (λ ms. All (MsgOk n w) ms) e h.stash_ok in
        handle-Goal n j w (record s { stash = rest; stash_size = s.stash_size - 1 })
          (record {
            read_round = reads.read_round;
            read_acked = reads.read_acked;
            read_proposal = reads.read_proposal;
          })
          (record {
            ident = h.ident;
            size_n = h.size_n;
            inside_n = h.inside_n;
            started = h.started;
            color_le = h.color_le;
            votes_le = h.votes_le;
            fresh_rounds = h.fresh_rounds;
            stash_ok = all_ok.1;
          })
          safe (PhaseFor-stash n w j s rest (s.stash_size - 1) s.phase ph) m all_ok.0
          (λ k q i. room_rest k q i s m rest e (room k q i)))
