-- ===== src/Consensus/OneColor.antt =====
-- The colors that are chosen in a run of pset2/ctconsensus.cc.
use mathlib.Core.Option.{some-injective}
use cs2620_s26_psets.Base.{
  ℕ, true, false, ◌≡◌, ◌∙◌, ◌<◌, inl, inr, sym, Bool-cases, ltb, ltb→lt, arith, ap,
}
use cs2620_s26_psets.Consensus.World.{World, Chosen, Safe, Blocked}
use cs2620_s26_psets.Bytes.{Bytes}
use cs2620_s26_psets.Consensus.Quorums.{quorums-meet}

-- A color that is chosen cannot be blocked.
majority_meets : (n : ℕ) (w : World) (c : Bytes) (h : Chosen n w c) → Blocked n w h.at → ⊥
majority_meets n w c h b =
    let (i, p, q) =
      quorums-meet (λ i. w.acked i h.at ≡ true)
        (λ i. (h.at < w.rounds i) × (w.acked i h.at ≡ false)) n h.by b.who h.quorum b.quorum
        h.all_acked b.all_passed in
    cc (p, q.1)

earlier_wins :
    (n : ℕ) (w : World) (c d : Bytes)
    → Safe n w
    → (h : Chosen n w c) (k : Chosen n w d) → h.at < k.at
    → c ≡ d
earlier_wins n w c d s h k l = elim (s h.at k.at d h.positive l k.proposed_at) [
  | inl e ↦ some-injective c d (sym h.proposed_at ∙ e)
  | inr b ↦ absurd (majority_meets n w c h b)
]

-- At most one color is chosen.
pub Chosen-unique :
    (n : ℕ) (w : World) (c d : Bytes) → Safe n w → Chosen n w c → Chosen n w d → c ≡ d
Chosen-unique n w c d s h k = elim (Bool-cases (ltb h.at k.at)) [
  | inl e ↦ earlier_wins n w c d s h k (ltb→lt h.at k.at e)
  | inr e ↦ elim (Bool-cases (ltb k.at h.at)) [
    | inl f ↦ sym (earlier_wins n w d c s k h (ltb→lt k.at h.at f))
    | inr f ↦
        let same : h.at ≡ k.at = ground (arith, e, f) in
        some-injective c d (sym h.proposed_at ∙ ap (λ r. w.proposal r) same ∙ k.proposed_at)
  ]
]
