-- ===== src/Consensus/Steps.antt =====
-- What the steps of a server of pset2/ctconsensus.cc keep: rounds, acknowledgments and the end.
use native.Mathlib.Nat.{mod-lt}
use cs2620_s26_psets.Base.{
  ℕ, true, false, [], ◌∷◌, none, zero, suc, ◌≤◌, ◌%◌, ◌<◌, All, All-append, ◌≡◌, Bool-cases, ◌==◌,
  arith, inl, inr, ◌⊎◌, if◌then◌else◌, sym, ==_iff, ◌∙◌, ap, refl, List, ◌+◌,
}
use cs2620_s26_psets.Consensus.Server.{
  start_round, to_all, to_others, await, Server, leader, await_prepare, await_propose, advance,
  finish,
}
use cs2620_s26_psets.Consensus.Facts.{
  OutOk, PhaseOk, MsgOk, PhaseFor, Reads, Base, has_round, color_at, PhaseFor-stash,
  PhaseFor-persists,
}
use cs2620_s26_psets.Consensus.World.{
  World, Known, Bounded, Safe, Later, Known-persists, Chosen, Chosen-persists,
}
use cs2620_s26_psets.Consensus.Msgs.{Message, to_server, decide_message}
use cs2620_s26_psets.Consensus.Moves.{Goal, quiet}
use cs2620_s26_psets.Bytes.{Bytes}

to_others-Ok :
    (n : ℕ) (w : World) (j id count : ℕ) (m : Message)
    → count ≤ n
    → MsgOk n w (record m { sender = j })
    → All (OutOk n w j) (to_others id count m)
unfolding to_others OutOk
to_others-Ok n w j id zero m k h = tt
to_others-Ok n w j id (suc count) m k h = elim (Bool-cases (count == id)) [
  | inl e ↦ rw (to_others, e) (to_others-Ok n w j id count m (omega (arith, k)) h)
  | inr e ↦
      rw (to_others, e)
        (All-append (OutOk n w j) (to_others id count m) ((to_server count, m) ∷ [])
          (to_others-Ok n w j id count m (omega (arith, k)) h) ((omega (arith, k), h), tt))
]

pub to_all-Ok :
    (n : ℕ) (w : World) (j count : ℕ) (m : Message)
    → count ≤ n
    → MsgOk n w (record m { sender = j })
    → All (OutOk n w j) (to_all count m)
unfolding to_all OutOk
to_all-Ok n w j zero m k h = tt
to_all-Ok n w j (suc count) m k h =
    All-append (OutOk n w j) (to_all count m) ((to_server count, m) ∷ [])
      (to_all-Ok n w j count m (omega (arith, k)) h) ((omega (arith, k), h), tt)

pub leader_below : (n r : ℕ) → 1 ≤ n → r % n < n
leader_below n r h = mod-lt r h

-- The start of a round.
pub start_round-Ok :
    (n j : ℕ) (w : World) (s : Server)
    → s.id ≡ j
    → s.n ≡ n
    → j < n
    → s.color_round < s.round
    → Known w s.color s.color_round
    → (s.round % n ≡ j → w.proposal s.round ≡ none)
    → s.round ≤ w.rounds j
    → Bounded w j s.round s.color_round
    → PhaseOk n w j (start_round s).0 × All (OutOk n w j) (start_round s).1
unfolding start_round await PhaseOk OutOk MsgOk
start_round-Ok n j w s a b c d e f g h = (
  phase (Bool-cases (s.id == leader s)),
  ((rw b (leader_below n s.round (omega (arith, c))), (c, e, d, g, h)), tt),
)
  where
    phase :
        ((s.id == leader s) ≡ true) ⊎ ((s.id == leader s) ≡ false)
        → PhaseFor n w j
            (record s { counted = [] })
            (if s.id == leader s then await_prepare 0 else await_propose)
    phase (inl z) =
        let leads : s.round % n ≡ j =
          sym ((==_iff s.id (leader s)).0 z ∙ ap (λ x. s.round % x) b) ∙ a in
        rw z (e, d, leads, f leads, refl, tt)
    phase (inr z) = rw z (
      e,
      d,
      (λ y.
          absurd (cc (z, (==_iff s.id (leader s)).1 (a ∙ sym y ∙ ap (λ x. s.round % x) (sym b))))),
    )

module _ (n j : ℕ) (w : World) (s : Server) (reads : Reads n w j s) (h : Base n w j s)
    (safe : Safe n w) where
  -- A DECIDE is received or made.
  pub finish-Goal :
      (c : Bytes) → Chosen n w c → Goal n j w (finish (record s { color = c; decided = true }))
  unfolding finish PhaseOk OutOk MsgOk
  finish-Goal c chosen =
      quiet n j w s reads (finish (record s { color = c; decided = true })) h safe refl refl refl
        refl (omega arith) h.color_le (omega arith) h.stash_ok
        (λ w' m l.
          let now : Chosen n w' c = Chosen-persists n j w w' l c chosen in
          (
            now,
            (now, to_others-Ok n w' j s.id s.n (decide_message c) (omega (arith, h.size_n)) now),
          ))

  -- The stash changes.
  pub stash-Goal :
      (ms : List Message) (k : ℕ)
      → All (MsgOk n w) ms
      → PhaseOk n w j s
      → Goal n j w (record s { stash = ms; stash_size = k }, [])
  unfolding PhaseOk
  stash-Goal ms k good ph =
      quiet n j w s reads (record s { stash = ms; stash_size = k }, []) h safe refl refl refl refl
        (omega arith) h.color_le (omega arith) good
        (λ w' m l. (
          PhaseFor-stash n w' j s ms k s.phase (
              PhaseFor-persists n j w w' l j s
                (λ q e. m.reads_now.read_proposal q e ∙ sym (reads.read_proposal q e)) s.phase ph),
          tt,
        ))

  -- The server enters a round; its votes may have changed, up to color_round.
  pub entered :
      (s1 : Server) (w' : World)
      → Later n j w w'
      → Reads n w' j (start_round s1).0
      → s1.id ≡ s.id
      → s1.n ≡ s.n
      → s.round < s1.round
      → s1.color_round < s1.round
      → Known w s1.color s1.color_round
      → s1.proposed ≡ s.proposed
      → ((q : ℕ) → has_round q s1.voted ≡ true → q ≤ s1.color_round)
      → PhaseOk n w' j (start_round s1).0 × All (OutOk n w' j) (start_round s1).1
  unfolding start_round await
  entered s1 w' l reads' a b grows le known same votes =
      start_round-Ok n j w' s1 (a ∙ h.ident) (b ∙ h.size_n) h.inside_n le
        (Known-persists n j w w' l s1.color s1.color_round known)
        (λ e.
          reads'.read_proposal s1.round e
          ∙ ap (color_at s1.round) same
          ∙ sym (reads.read_proposal s1.round e)
          ∙ h.fresh_rounds s1.round grows e)
        (omega (arith, reads'.read_round)) (λ q k v. votes q (sym (reads'.read_acked q) ∙ v))

  pub advance-Goal : Known w s.color s.color_round → Goal n j w (advance s)
  unfolding advance start_round await
  advance-Goal known =
      quiet n j w s reads (advance s) h safe refl refl refl refl (omega arith)
        (omega (arith, h.color_le)) (omega arith) h.stash_ok
        (λ w' m l.
          entered (record s { round = s.round + 1 }) w' l m.reads_now refl refl (omega arith)
            (omega (arith, h.color_le)) known refl
            (λ q v. (h.votes_le q (reads.read_acked q ∙ v)).1))
