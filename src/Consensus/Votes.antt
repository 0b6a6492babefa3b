-- ===== src/Consensus/Votes.antt =====
-- What the acknowledgment of a round keeps, pset2/ctconsensus.cc.
use mathlib.Core.Path.{subst}
use cs2620_s26_psets.Base.{
  ℕ, true, false, [], ◌∷◌, some, Bool, List, ◌≡◌, if◌then◌else◌, ==_iff, ◌&&◌, refl, ◌==◌, ◌≤◌,
  ◌||◌, Bool-cases, inl, inr, ◌∙◌, All, ◌%◌, arith, sym, ap, ◌+◌, ◌<◌,
}
use cs2620_s26_psets.Consensus.World.{World, Safe, Later, Known, Known-persists}
use cs2620_s26_psets.Consensus.Facts.{has_round, Reads, Base, OutOk, MsgOk, PhaseOk, color_at}
use cs2620_s26_psets.Consensus.Server.{
  Server, acknowledge_round, advance, start_round, leader, await, await_ack,
}
use cs2620_s26_psets.Consensus.Msgs.{Sent, to_server, ack_message}
use cs2620_s26_psets.Consensus.Moves.{Moves, Goal, moved, still_Safe}
use cs2620_s26_psets.Consensus.Steps.{leader_below, entered}

or_false : (a b : Bool) → a ≡ false → (a || b) ≡ b
or_false true b e = cc
or_false false b e = refl

or_true : (a b : Bool) → b ≡ true → (a || b) ≡ true
or_true true b e = refl
or_true false b e = e

vote_parts : (ack : Bool) (r q : ℕ) → (ack && r == q) ≡ true → (ack ≡ true) × (r ≡ q)
vote_parts true r q e = (refl, (==_iff r q).0 e)
vote_parts false r q e = cc

no_vote : (ack : Bool) (r q : ℕ) → q < r → (ack && r == q) ≡ false
no_vote true r q k = ground (arith, k)
no_vote false r q k = refl

has_round-if :
    (ack : Bool) (q r : ℕ) (voted : List ℕ)
    → has_round q (if ack then r ∷ voted else voted) ≡ (ack && r == q) || has_round q voted
unfolding has_round
has_round-if true q r voted = refl
has_round-if false q r voted = refl

voted_here :
    (r : ℕ) (ack : Bool) (voted : List ℕ)
    → ack ≡ true
    → has_round r (if ack then r ∷ voted else voted) ≡ true
unfolding has_round
voted_here r true voted e = rw ((==_iff r r).1 refl) refl
voted_here r false voted e = cc

module _ (n j : ℕ) (w : World) (s : Server) (reads : Reads n w j s) (h : Base n w j s)
    (safe : Safe n w) where
  votes_if :
      (ack : Bool)
      → (ack ≡ true → s.color_round ≡ s.round)
      → (q : ℕ) → has_round q (if ack then s.round ∷ s.voted else s.voted) ≡ true
      → (1 ≤ q) × (q ≤ s.color_round)
  votes_if ack now q v = elim (Bool-cases (ack && s.round == q)) [
    | inl e ↦
        let (yes_ack, same) = vote_parts ack s.round q e in
        (omega (arith, h.started, same), omega (arith, now yes_ack, same))
    | inr e ↦ h.votes_le q (
        reads.read_acked q
        ∙ sym (or_false (ack && s.round == q) (has_round q s.voted) e)
        ∙ sym (has_round-if ack q s.round s.voted)
        ∙ v)
  ]

  -- A server votes for a round, or declines.
  voted-Goal :
      (ack : Bool) (r : Server × List Sent)
      → (ack ≡ true → s.color_round ≡ s.round)
      → r.0.id ≡ s.id
      → r.0.n ≡ s.n
      → r.0.voted ≡ (if ack then s.round ∷ s.voted else s.voted)
      → r.0.proposed ≡ s.proposed
      → s.round ≤ r.0.round
      → r.0.color_round ≡ s.color_round
      → r.0.stash ≡ s.stash
      → ((w' : World)
          → Moves n j w w' r.0
          → Later n j w w'
          → PhaseOk n w' j r.0 × All (OutOk n w' j) r.1)
      → Goal n j w r
  voted-Goal ack r now a b c d grows le stash rest =
      moved n j w s reads r h
        (record {
          same_id = a;
          same_n = b;
          le = omega (arith, h.color_le, grows, le);
          grows = grows;
          votes = λ q v.
              let old = votes_if ack now q (ap (has_round q) (sym c) ∙ v) in
              (old.0, omega (arith, old.1, le));
          votes_stay = λ q v.
              ap (has_round q) c
              ∙ has_round-if ack q s.round s.voted
              ∙ or_true (ack && s.round == q) (has_round q s.voted) v;
          votes_now = λ q v.
              ap (has_round q) c
              ∙ has_round-if ack q s.round s.voted
              ∙ or_false (ack && s.round == q) (has_round q s.voted) (no_vote ack s.round q v);
          proposals_kept = λ q x v. ap (color_at q) d ∙ v;
          fresh_after = λ q v e.
              ap (color_at q) d
              ∙ sym (reads.read_proposal q e)
              ∙ h.fresh_rounds q (omega (arith, v, grows)) e;
          stash_fits = subst (λ ms. All (MsgOk n w) ms) (sym stash) h.stash_ok;
        })
        (still_Safe n j w s reads r.0 safe d) rest

  ack-Ok :
      (ack : Bool) (w' : World) (s' : Server)
      → Reads n w' j s'
      → s'.voted ≡ (if ack then s.round ∷ s.voted else s.voted)
      → OutOk n w' j (to_server (leader s), ack_message s.round ack)
  unfolding OutOk MsgOk
  ack-Ok ack w' s' reads' e = (
    rw h.size_n (leader_below n s.round (omega (arith, h.inside_n))),
    (
      h.inside_n,
      (λ yes_ack.
          reads'.read_acked s.round
          ∙ ap (has_round s.round) e
          ∙ voted_here s.round ack s.voted yes_ack),
    ),
  )

  pub acknowledge-Goal :
      (ack : Bool)
      → (ack ≡ true → s.color_round ≡ s.round)
      → Known w s.color s.color_round
      → (s.round % n ≡ j → w.proposal s.round ≡ some s.color)
      → Goal n j w (acknowledge_round ack s)
  unfolding acknowledge_round advance start_round await PhaseOk
  acknowledge-Goal ack now known leads = elim (Bool-cases (s.id == leader s)) [
    | inl e ↦
        rw (acknowledge_round, e)
          (voted-Goal ack
            (
              await (await_ack 0 0)
                  (record s { voted = if ack then s.round ∷ s.voted else s.voted; counted = [] }),
              (to_server (leader s), ack_message s.round ack) ∷ [],
            )
            now refl refl refl refl (omega arith) refl refl
            (λ w' m l. (
              (
                Known-persists n j w w' l s.color s.color_round known,
                is_leader e,
                l.proposals_stay s.round s.color (leads (is_leader e)),
                refl,
                tt,
              ),
              (ack-Ok ack w' _ m.reads_now refl, tt),
            )))
    | inr e ↦
        rw (acknowledge_round, e)
          (voted-Goal ack
            (
              (advance (record s {
                voted = if ack then s.round ∷ s.voted else s.voted;
                counted = [];
              })).0,
              (to_server (leader s), ack_message s.round ack)
                  ∷ (advance (record s {
                    voted = if ack then s.round ∷ s.voted else s.voted;
                    counted = [];
                  })).1,
            )
            now refl refl refl refl (omega arith) refl refl
            (λ w' m l.
              let both =
                entered n j w s reads h safe
                  (record s {
                    round = s.round + 1;
                    voted = if ack then s.round ∷ s.voted else s.voted;
                    counted = [];
                  })
                  w' l m.reads_now refl refl (omega arith) (omega (arith, h.color_le)) known refl
                  (λ q v. (votes_if ack now q v).1) in
              (both.0, (ack-Ok ack w' _ m.reads_now refl, both.1))))
  ]
    where
      is_leader : (s.id == leader s) ≡ true → s.round % n ≡ j
      is_leader e = sym ((==_iff s.id (leader s)).0 e ∙ ap (λ x. s.round % x) h.size_n) ∙ h.ident
