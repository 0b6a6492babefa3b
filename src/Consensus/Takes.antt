-- ===== src/Consensus/Takes.antt =====
-- What the messages that a server of pset2/ctconsensus.cc takes keep.
use mathlib.Core.Path.{subst}
use cs2620_s26_psets.Base.{
  ◌≡◌, ◌∙◌, ◌≤◌, ◌++◌, ℕ, true, [], ◌∷◌, some, List, Bool-cases, ◌≤◌, leb, inl, arith, ◌++◌,
  All-append, inr, length, sym, ap, refl,
}
use cs2620_s26_psets.Consensus.Msgs.{
  m_prepare, m_propose, m_ack, m_decide, MessageType, is_decide, Message, same_type, Sent,
}
use cs2620_s26_psets.Consensus.World.{World, Safe}
use cs2620_s26_psets.Consensus.Facts.{
  MsgOk, Reads, Base, PhaseOk, PhaseFor, PhaseFor-stash, PhaseFor-persists, MsgFor,
}
use cs2620_s26_psets.Consensus.Server.{
  Server, put_aside, take_propose, take_decide, sort_message, await, Phase,
}
use cs2620_s26_psets.Bytes.{Bytes}
use cs2620_s26_psets.Consensus.Moves.{Goal, quiet}
use cs2620_s26_psets.Consensus.Steps.{stash-Goal, finish-Goal}
use cs2620_s26_psets.Consensus.Votes.{acknowledge-Goal}
use cs2620_s26_psets.Consensus.Cases.{sort-elim}

is_decide_of : (t : MessageType) → is_decide t ≡ true → t ≡ m_decide
is_decide_of t e = ground (arith, e)

pub prepare_of : (t : MessageType) → same_type t m_prepare ≡ true → t ≡ m_prepare
prepare_of t e = ground (arith, e)

pub propose_of : (t : MessageType) → same_type t m_propose ≡ true → t ≡ m_propose
propose_of t e = ground (arith, e)

pub ack_of : (t : MessageType) → same_type t m_ack ≡ true → t ≡ m_ack
ack_of t e = ground (arith, e)

-- The message as one of its type.
pub MsgOk-of :
    (n : ℕ) (w : World) (m : Message) (t : MessageType) → m.type ≡ t → MsgOk n w m → MsgFor n w m t
unfolding MsgOk
MsgOk-of n w m t e h = subst (λ x. MsgFor n w m x) e h

module _ (n j : ℕ) (w : World) (s : Server) (reads : Reads n w j s) (h : Base n w j s)
    (safe : Safe n w) where
  decide-Goal : (m : Message) → m.type ≡ m_decide → MsgOk n w m → Goal n j w (take_decide m s)
  unfolding take_decide
  decide-Goal m e ok = finish-Goal n j w s reads h safe m.color (MsgOk-of n w m m_decide e ok)

  aside-Goal : (m : Message) → MsgOk n w m → PhaseOk n w j s → Goal n j w (put_aside m s, [])
  unfolding put_aside
  aside-Goal m ok ph = elim (Bool-cases (leb s.round m.round)) [
    | inl e ↦
        rw (put_aside, e)
          (stash-Goal n j w s reads h safe (s.stash ++ (m ∷ [])) s.stash_size
            (All-append (MsgOk n w) s.stash (m ∷ []) h.stash_ok (ok, tt)) ph)
    | inr e ↦ rw (put_aside, e) (stash-Goal n j w s reads h safe s.stash s.stash_size h.stash_ok ph)
  ]

  pub sort-Goal :
      (mt : MessageType) (take : Message → Server → Server × List Sent) (m : Message)
      → MsgOk n w m
      → PhaseOk n w j s
      → (same_type m.type mt ≡ true → m.round ≡ s.round → Goal n j w (take m s))
      → Goal n j w (sort_message mt take m s)
  sort-Goal mt take m ok ph t =
      sort-elim (Goal n j w) mt take m s (λ e. decide-Goal m (is_decide_of m.type e) ok)
        (aside-Goal m ok ph) t

  pub propose_taken :
      (m : Message)
      → m.type ≡ m_propose
      → m.round ≡ s.round
      → MsgOk n w m
      → Goal n j w (take_propose m s)
  unfolding take_propose
  propose_taken m e same ok =
      let known : w.proposal s.round ≡ some m.color =
        ap (λ q. w.proposal q) (sym same) ∙ (MsgOk-of n w m m_propose e ok).1 in
      acknowledge-Goal n j w (record s { color = m.color; color_round = s.round })
        (record {
          read_round = reads.read_round;
          read_acked = reads.read_acked;
          read_proposal = reads.read_proposal;
        })
        (record {
          ident = h.ident;
          size_n = h.size_n;
          inside_n = h.inside_n;
          started = h.started;
          color_le = omega arith;
          votes_le = λ q a. let old = h.votes_le q a in (old.0, omega (arith, old.1, h.color_le));
          fresh_rounds = h.fresh_rounds;
          stash_ok = h.stash_ok;
        })
        safe true (λ e. refl) (inr known) (λ e. known)

  -- The message is one more of those that a leader counts.
  pub wait-Goal :
      (c : Bytes) (r : ℕ) (p : Phase) (ids : List ℕ)
      → s.color_round ≤ r
      → r ≤ s.round
      → PhaseFor n w j (record s { color = c; color_round = r; counted = ids; phase = p }) p
      → Goal n j w (await p (record s { color = c; color_round = r; counted = ids }), [])
  unfolding await PhaseOk
  wait-Goal c r p ids a b ph =
      quiet n j w s reads _ h safe refl refl refl refl (omega arith) b a h.stash_ok (λ w' m l. (
        PhaseFor-stash n w' j (record s { color = c; color_round = r; counted = ids; phase = p })
            s.stash (length s.stash) p
            (PhaseFor-persists n j w w' l j
              (record s { color = c; color_round = r; counted = ids; phase = p })
              (λ q e. m.reads_now.read_proposal q e ∙ sym (reads.read_proposal q e)) p ph),
        tt,
      ))
