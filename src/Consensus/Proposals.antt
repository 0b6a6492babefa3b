-- ===== src/Consensus/Proposals.antt =====
-- What a proposal keeps, pset2/ctconsensus.cc.
use cs2620_s26_psets.Base.{
  ℕ, [], ◌∷◌, none, some, ◌≢◌, ◌≡◌, ◌%◌, Bool-cases, List, ==_iff, refl, ◌==◌, ◌<◌, inl, ap, inr,
  ◌≤◌, All, arith, ◌∙◌, sym,
}
use cs2620_s26_psets.Consensus.World.{World, Safe, Known, IsQuorum, Bounded, Known-persists}
use cs2620_s26_psets.Consensus.Server.{Server, await, await_propose, to_all}
use cs2620_s26_psets.Consensus.Facts.{Reads, Base, color_at, PhaseOk, MsgOk}
use cs2620_s26_psets.Bytes.{Bytes}
use cs2620_s26_psets.Consensus.Moves.{Goal, moved}
use cs2620_s26_psets.Consensus.Msgs.{propose_message}
use cs2620_s26_psets.Consensus.Steps.{to_all-Ok}
use cs2620_s26_psets.Consensus.Proposing.{Safe-proposes}

module _ (n j : ℕ) (w : World) (s : Server) (reads : Reads n w j s) (h : Base n w j s)
    (safe : Safe n w) where
  color_at-fresh :
      (c : Bytes)
      → s.round % n ≡ j
      → w.proposal s.round ≡ none
      → (q : ℕ) (x : Bytes) → color_at q s.proposed ≡ some x
      → color_at q ((s.round, c) ∷ s.proposed) ≡ some x
  unfolding color_at
  color_at-fresh c leads fresh q x v = elim (Bool-cases (s.round == q)) [
    | inl e ↦ absurd (
        cc (
          v,
          fresh,
          reads.read_proposal s.round leads,
          ap (λ z. color_at z s.proposed) ((==_iff s.round q).0 e),
        ))
    | inr e ↦ rw e v
  ]

  color_at-other :
      (c : Bytes) (q : ℕ)
      → s.round ≢ q
      → color_at q ((s.round, c) ∷ s.proposed) ≡ color_at q s.proposed
  unfolding color_at
  color_at-other c q ne = elim (Bool-cases (s.round == q)) [
    | inl e ↦ absurd (ne ((==_iff s.round q).0 e))
    | inr e ↦ rw e refl
  ]

  color_at-here : (c : Bytes) → color_at s.round ((s.round, c) ∷ s.proposed) ≡ some c
  unfolding color_at
  color_at-here c = rw ((==_iff s.round s.round).1 refl) refl

  -- The proposal of color c, known from round r, after a majority of PREPAREs.
  pub propose-Goal :
      (c : Bytes) (r : ℕ) (ids : List ℕ)
      → s.round % n ≡ j
      → w.proposal s.round ≡ none
      → Known w c r
      → r < s.round
      → s.color_round ≤ r
      → IsQuorum n ids
      → All (λ i. (s.round ≤ w.rounds i) × Bounded w i s.round r) ids
      → Goal n j w (
        await await_propose (record s {
          color = c;
          color_round = r;
          counted = [];
          proposed = (s.round, c) ∷ s.proposed;
        }),
        to_all s.n (propose_message s.round c),
      )
  unfolding await PhaseOk MsgOk
  propose-Goal c r ids leads fresh known r_le grows quorum told =
      moved n j w s reads _ h
        (record {
          same_id = refl;
          same_n = refl;
          le = omega (arith, r_le);
          grows = omega arith;
          votes = λ q v.
              let old = h.votes_le q (reads.read_acked q ∙ v) in
              (old.0, omega (arith, old.1, grows));
          votes_stay = λ q v. v;
          votes_now = λ q v. refl;
          proposals_kept = color_at-fresh c leads fresh;
          fresh_after = λ q v e.
              color_at-other c q (λ x. absurd (omega (arith, v, x)))
              ∙ sym (reads.read_proposal q e)
              ∙ h.fresh_rounds q v e;
          stash_fits = h.stash_ok;
        })
        (λ w' m l. Safe-proposes n w w' s.round c r ids safe (record {
          elsewhere = λ q ne. elim (Bool-cases (q % n == j)) [
            | inl e ↦
                let same : q % n ≡ j = (==_iff (q % n) j).0 e in
                m.reads_now.read_proposal q same
                ∙ color_at-other c q (λ x. ne (sym x))
                ∙ sym (reads.read_proposal q same)
            | inr e ↦ m.other_proposals q (λ x. cc (e, (==_iff (q % n) j).1 x))
          ];
          proposed_here = m.reads_now.read_proposal s.round leads ∙ color_at-here c;
          fresh = fresh;
          same_rounds = λ i. elim (Bool-cases (i == j)) [
            | inl e ↦ rw ((==_iff i j).0 e) (m.reads_now.read_round ∙ sym reads.read_round)
            | inr e ↦ m.other_rounds i (λ x. cc (e, (==_iff i j).1 x))
          ];
          same_acks = λ i q. elim (Bool-cases (i == j)) [
            | inl e ↦ rw ((==_iff i j).0 e) (m.reads_now.read_acked q ∙ sym (reads.read_acked q))
            | inr e ↦ m.other_acks i q (λ x. cc (e, (==_iff i j).1 x))
          ];
          known = known;
          earlier = r_le;
          quorum = quorum;
          told = told;
        }))
        (λ w' m l.
          let here : w'.proposal s.round ≡ some c =
            m.reads_now.read_proposal s.round leads ∙ color_at-here c in
          (
            (Known-persists n j w w' l c r known, r_le, (λ e. here)),
            to_all-Ok n w' j s.n (propose_message s.round c) (omega (arith, h.size_n))
                (h.started, here),
          ))
