-- ===== src/Consensus/Moves.antt =====
-- How one step of a server of pset2/ctconsensus.cc changes what is known of the run.
use cs2620_s26_psets.Base.{
  ℕ, true, none, some, ◌≡◌, List, ◌≢◌, Bool-cases, ◌≤◌, ◌%◌, All, ◌<◌, ◌==◌, inl, ◌∙◌, ==_iff, ap,
  arith, sym, inr, All-map_of,
}
use cs2620_s26_psets.Consensus.Server.{Server}
use cs2620_s26_psets.Consensus.World.{World, Later, Safe, Safe-persists}
use cs2620_s26_psets.Consensus.Facts.{
  Reads, has_round, color_at, Base, PhaseOk, OutOk, MsgOk, MsgOk-persists,
}
use cs2620_s26_psets.Consensus.Msgs.{Sent}
use cs2620_s26_psets.Bytes.{Bytes}

-- The rounds, acknowledgments and proposals of n servers.
abbrev pub world_of : ℕ → (ℕ → Server) → World
world_of n f = record {
  rounds = λ i. (f i).round;
  acked = λ i q. has_round q (f i).voted;
  proposal = λ q. color_at q (f (q % n)).proposed;
}

-- The new world differs at server j alone, which is now s'.
pub record Moves (n j : ℕ) (w w' : World) (s' : Server) : Type 0 where
  pub reads_now : Reads n w' j s'
  pub other_rounds : (i : ℕ) → i ≢ j → w'.rounds i ≡ w.rounds i
  pub other_acks : (i q : ℕ) → i ≢ j → w'.acked i q ≡ w.acked i q
  pub other_proposals : (q : ℕ) → q % n ≢ j → w'.proposal q ≡ w.proposal q

-- What a step of server j has to keep.
pub record Done (n j : ℕ) (w w' : World) (r : Server × List Sent) : Type 0 where
  pub later : Later n j w w'
  pub safe : Safe n w'
  pub base : Base n w' j r.0
  pub phase_ok : PhaseOk n w' j r.0
  pub sent_ok : All (OutOk n w' j) r.1

-- How the fields of server j may change.
pub record Change (n j : ℕ) (w : World) (s s' : Server) : Type 0 where
  pub same_id : s'.id ≡ s.id
  pub same_n : s'.n ≡ s.n
  pub le : s'.color_round ≤ s'.round
  pub grows : s.round ≤ s'.round
  pub votes : (q : ℕ) → has_round q s'.voted ≡ true → (1 ≤ q) × (q ≤ s'.color_round)
  pub votes_stay : (q : ℕ) → has_round q s.voted ≡ true → has_round q s'.voted ≡ true
  pub votes_now : (q : ℕ) → q < s.round → has_round q s'.voted ≡ has_round q s.voted
  pub proposals_kept :
      (q : ℕ) (c : Bytes) → color_at q s.proposed ≡ some c → color_at q s'.proposed ≡ some c
  pub fresh_after : (q : ℕ) → s'.round < q → q % n ≡ j → color_at q s'.proposed ≡ none
  pub stash_fits : All (MsgOk n w) s'.stash

abbrev pub Goal : ℕ → ℕ → World → Server × List Sent → Type 0
Goal n j w r = (w' : World) → Moves n j w w' r.0 → Done n j w w' r

module _ (n j : ℕ) (w : World) (s : Server) (reads : Reads n w j s) where
  Change-Later : (s' : Server) (w' : World) → Change n j w s s' → Moves n j w w' s' → Later n j w w'
  Change-Later s' w' c m = record {
    rounds_grow = λ i. elim (Bool-cases (i == j)) [
      | inl e ↦
          rw ((==_iff i j).0 e) (omega (arith, c.grows, reads.read_round, m.reads_now.read_round))
      | inr e ↦ omega (arith, m.other_rounds i (λ x. cc (e, (==_iff i j).1 x)))
    ];
    acks_stay = λ i q a. elim (Bool-cases (i == j)) [
      | inl e ↦
          let same : i ≡ j = (==_iff i j).0 e in
          ap (λ x. w'.acked x q) same
          ∙ m.reads_now.read_acked q
          ∙ c.votes_stay q (sym (reads.read_acked q) ∙ ap (λ x. w.acked x q) (sym same) ∙ a)
      | inr e ↦ m.other_acks i q (λ x. cc (e, (==_iff i j).1 x)) ∙ a
    ];
    acks_now = λ i q a. elim (Bool-cases (i == j)) [
      | inl e ↦
          let same : i ≡ j = (==_iff i j).0 e in
          ap (λ x. w'.acked x q) same
          ∙ m.reads_now.read_acked q
          ∙ c.votes_now q (omega (arith, a, reads.read_round, ap (λ x. w.rounds x) same))
          ∙ sym (reads.read_acked q)
          ∙ ap (λ x. w.acked x q) (sym same)
      | inr e ↦ m.other_acks i q (λ x. cc (e, (==_iff i j).1 x))
    ];
    proposals_stay = λ q d a. elim (Bool-cases (q % n == j)) [
      | inl e ↦
          let same : q % n ≡ j = (==_iff (q % n) j).0 e in
          m.reads_now.read_proposal q same
          ∙ c.proposals_kept q d (sym (reads.read_proposal q same) ∙ a)
      | inr e ↦ m.other_proposals q (λ x. cc (e, (==_iff (q % n) j).1 x)) ∙ a
    ];
    others_stay = m.other_proposals;
  }

  pub moved :
      (r : Server × List Sent)
      → Base n w j s
      → Change n j w s r.0
      → ((w' : World) → Moves n j w w' r.0 → Later n j w w' → Safe n w')
      → ((w' : World)
          → Moves n j w w' r.0
          → Later n j w w'
          → PhaseOk n w' j r.0 × All (OutOk n w' j) r.1)
      → Goal n j w r
  moved r h c safe rest w' m =
      let l : Later n j w w' = Change-Later r.0 w' c m in
      record {
        later = l;
        safe = safe w' m l;
        base = record {
          ident = c.same_id ∙ h.ident;
          size_n = c.same_n ∙ h.size_n;
          inside_n = h.inside_n;
          started = omega (arith, h.started, c.grows);
          color_le = c.le;
          votes_le = λ q a. c.votes q (sym (m.reads_now.read_acked q) ∙ a);
          fresh_rounds = λ q a e. m.reads_now.read_proposal q e ∙ c.fresh_after q a e;
          stash_ok = All-map_of r.0.stash (λ x k. MsgOk-persists n j w w' l x k) c.stash_fits;
        };
        phase_ok = (rest w' m l).0;
        sent_ok = (rest w' m l).1;
      }

  -- No proposal is new.
  pub still_Safe :
      (s' : Server)
      → Safe n w
      → s'.proposed ≡ s.proposed
      → (w' : World) → Moves n j w w' s'
      → Later n j w w'
      → Safe n w'
  still_Safe s' safe e w' m l =
      Safe-persists n j w w' l
        (λ q. elim (Bool-cases (q % n == j)) [
          | inl f ↦
              let same : q % n ≡ j = (==_iff (q % n) j).0 f in
              m.reads_now.read_proposal q same
              ∙ ap (color_at q) e
              ∙ sym (reads.read_proposal q same)
          | inr f ↦ m.other_proposals q (λ x. cc (f, (==_iff (q % n) j).1 x))
        ])
        safe

  -- No vote and no proposal is new.
  pub quiet :
      (r : Server × List Sent)
      → Base n w j s
      → Safe n w
      → r.0.id ≡ s.id
      → r.0.n ≡ s.n
      → r.0.voted ≡ s.voted
      → r.0.proposed ≡ s.proposed
      → s.round ≤ r.0.round
      → r.0.color_round ≤ r.0.round
      → s.color_round ≤ r.0.color_round
      → All (MsgOk n w) r.0.stash
      → ((w' : World)
          → Moves n j w w' r.0
          → Later n j w w'
          → PhaseOk n w' j r.0 × All (OutOk n w' j) r.1)
      → Goal n j w r
  quiet r h safe a b c d grows le color_grows stash rest =
      moved r h
        (record {
          same_id = a;
          same_n = b;
          le = le;
          grows = grows;
          votes = λ q v.
              let old = h.votes_le q (reads.read_acked q ∙ ap (has_round q) (sym c) ∙ v) in
              (old.0, omega (arith, old.1, color_grows));
          votes_stay = λ q v. ap (has_round q) c ∙ v;
          votes_now = λ q v. ap (has_round q) c;
          proposals_kept = λ q x v. ap (color_at q) d ∙ v;
          fresh_after = λ q v e.
              ap (color_at q) d
              ∙ sym (reads.read_proposal q e)
              ∙ h.fresh_rounds q (omega (arith, v, grows)) e;
          stash_fits = stash;
        })
        (still_Safe r.0 safe d) rest
