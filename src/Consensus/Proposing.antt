-- ===== src/Consensus/Proposing.antt =====
-- A proposal of pset2/ctconsensus.cc and the earlier ones.
use mathlib.Core.Option.{some-injective}
use cs2620_s26_psets.Base.{
  ℕ, true, false, [], ◌∷◌, none, some, ◌≡◌, ◌≢◌, ◌∙◌, ◌≤◌, ◌<◌, ◌==◌, ◌⊎◌, inl, inr, Bool, List,
  All, Bool-cases, ==_iff, arith, All-map_of, sym, ap,
}
use cs2620_s26_psets.Consensus.World.{World, Safe, Known, Blocked, IsQuorum, Bounded}
use cs2620_s26_psets.Bytes.{Bytes}

search_for {ℓ} :
    (P : ℕ → Type ℓ) (f : ℕ → Bool) (ids : List ℕ)
    → All P ids
    → ((i : ℕ) × P i × (f i ≡ true)) ⊎ All (λ i. P i × (f i ≡ false)) ids
search_for P f [] h = inr tt
search_for P f (x ∷ ids) h = elim (Bool-cases (f x)) [
  | inl e ↦ inl (x, h.0, e)
  | inr e ↦ elim (search_for P f ids h.1) [
    | inl found ↦ inl found
    | inr none_found ↦ inr ((h.0, e), none_found)
  ]
]

-- A server that proposes in a round what it knows best, after a majority has told it.
pub record Proposes (n : ℕ) (w w' : World) (round : ℕ) (c : Bytes) (r : ℕ) (ids : List ℕ)
    : Type 0 where
  pub elsewhere : (q : ℕ) → q ≢ round → w'.proposal q ≡ w.proposal q
  pub proposed_here : w'.proposal round ≡ some c
  pub fresh : w.proposal round ≡ none
  pub same_rounds : (i : ℕ) → w'.rounds i ≡ w.rounds i
  pub same_acks : (i q : ℕ) → w'.acked i q ≡ w.acked i q
  pub known : Known w c r
  pub earlier : r < round
  pub quorum : IsQuorum n ids
  pub told : All (λ i. (round ≤ w.rounds i) × Bounded w i round r) ids

module _ (n : ℕ) (w w' : World) (round : ℕ) (c : Bytes) (r : ℕ) (ids : List ℕ) (s : Safe n w)
    (h : Proposes n w w' round c r ids) where
  Blocked-same : (p : ℕ) → Blocked n w p → Blocked n w' p
  Blocked-same p b = record {
    who = b.who;
    quorum = b.quorum;
    all_passed =
        All-map_of b.who (λ i x. (omega (arith, x.0, h.same_rounds i), h.same_acks i p ∙ x.1))
          b.all_passed;
  }

  keep :
      (p : ℕ) (d : Bytes)
      → p ≢ round
      → (w.proposal p ≡ some d) ⊎ Blocked n w p
      → (w'.proposal p ≡ some d) ⊎ Blocked n w' p
  keep p d k (inl e) = inl (h.elsewhere p k ∙ e)
  keep p d k (inr b) = inr (Blocked-same p b)

  -- Somebody of the majority has acknowledged round p.
  told_of : (p : ℕ) → 1 ≤ p → p ≤ r → (w'.proposal p ≡ some c) ⊎ Blocked n w' p
  told_of p a b = elim h.known [
    | inl e ↦ absurd (omega arith)
    | inr e ↦ elim (Bool-cases (p == r)) [
      | inl f ↦
          let same : p ≡ r = (==_iff p r).0 f in
          keep p c (λ x. absurd (omega (arith, h.earlier))) (inl (ap (λ q. w.proposal q) same ∙ e))
      | inr f ↦
          keep p c (λ x. absurd (omega (arith, h.earlier))) (s p r c a (ground (arith, f, b)) e)
    ]
  ]

  pub Safe-proposes : Safe n w'
  Safe-proposes p p' d a b e = elim (Bool-cases (p' == round)) [
    | inl f ↦
        let same : p' ≡ round = (==_iff p' round).0 f in
        let color : d ≡ c =
          some-injective d c (sym e ∙ ap (λ q. w'.proposal q) same ∙ h.proposed_here) in
        rw color
          (elim (search_for (λ i. (round ≤ w.rounds i) × Bounded w i round r) (λ i. w.acked i p) ids
            h.told) [
              | inl (i, told, yes_acked) ↦ told_of p a (told.1 p (omega arith) yes_acked)
              | inr passed ↦ inr (record {
                who = ids;
                quorum = h.quorum;
                all_passed =
                    All-map_of ids
                      (λ i x. (omega (arith, x.0.0, h.same_rounds i), h.same_acks i p ∙ x.1))
                      passed;
              })
            ])
    | inr f ↦
        let other : p' ≢ round = λ x. cc (f, (==_iff p' round).1 x) in
        let old = s p p' d a b (sym (h.elsewhere p' other) ∙ e) in
        elim (Bool-cases (p == round)) [
          | inr g ↦ keep p d (λ x. cc (g, (==_iff p round).1 x)) old
          | inl g ↦ elim old [
            | inl z ↦ absurd (cc (z, h.fresh, ap (λ q. w.proposal q) ((==_iff p round).0 g)))
            | inr z ↦ inr (Blocked-same p z)
          ]
        ]
  ]
