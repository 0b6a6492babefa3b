-- ===== src/Consensus/World.antt =====
-- What is known of a run of pset2/ctconsensus.cc: rounds, acknowledgments and proposals.
use cs2620_s26_psets.Base.{
  ℕ, ◌/◌, ◌%◌, ◌≤◌, ◌<◌, ◌≡◌, sym, ◌∙◌, ◌≢◌, ◌⊎◌, inl, inr, Bool, true, false, Option, some, List,
  arith, length, All, All-map_of,
}
use cs2620_s26_psets.Bytes.{Bytes}
use cs2620_s26_psets.Consensus.Once.{occurrences}

pub record World : Type 0 where
  pub rounds : ℕ → ℕ
  pub acked : ℕ → ℕ → Bool
  pub proposal : ℕ → Option Bytes

-- More than half of the n servers, each once.
pub record IsQuorum (n : ℕ) (ids : List ℕ) : Type 0 where
  pub inside : All (λ i. i < n) ids
  pub once : (i : ℕ) → occurrences i ids ≤ 1
  pub majority : n / 2 < length ids

-- The color of some proposal, or of the start.
abbrev pub Known : World → Bytes → ℕ → Type 0
Known w c r = (r ≡ 0) ⊎ (w.proposal r ≡ some c)

-- Before a round, a server has acknowledged nothing after round r.
abbrev pub Bounded : World → ℕ → ℕ → ℕ → Type 0
Bounded w i round r = (q : ℕ) → q < round → w.acked i q ≡ true → q ≤ r

pub record Chosen (n : ℕ) (w : World) (c : Bytes) : Type 0 where
  pub at : ℕ
  pub by : List ℕ
  pub positive : 1 ≤ at
  pub quorum : IsQuorum n by
  pub all_acked : All (λ i. w.acked i at ≡ true) by
  pub proposed_at : w.proposal at ≡ some c

-- A majority has gone on without an acknowledgment.
pub record Blocked (n : ℕ) (w : World) (r : ℕ) : Type 0 where
  pub who : List ℕ
  pub quorum : IsQuorum n who
  pub all_passed : All (λ i. (r < w.rounds i) × (w.acked i r ≡ false)) who

-- A later proposal repeats an earlier one, or the earlier one cannot win.
abbrev pub Safe : ℕ → World → Type 0
Safe n w =
    (r r' : ℕ) (c : Bytes)
    → 1 ≤ r
    → r < r'
    → w.proposal r' ≡ some c
    → (w.proposal r ≡ some c) ⊎ Blocked n w r

-- How server j may change the world.
pub record Later (n j : ℕ) (w w' : World) : Type 0 where
  pub rounds_grow : (i : ℕ) → w.rounds i ≤ w'.rounds i
  pub acks_stay : (i q : ℕ) → w.acked i q ≡ true → w'.acked i q ≡ true
  pub acks_now : (i q : ℕ) → q < w.rounds i → w'.acked i q ≡ w.acked i q
  pub proposals_stay : (q : ℕ) (c : Bytes) → w.proposal q ≡ some c → w'.proposal q ≡ some c
  pub others_stay : (q : ℕ) → q % n ≢ j → w'.proposal q ≡ w.proposal q

module _ (n j : ℕ) (w w' : World) (l : Later n j w w') where
  pub Known-persists : (c : Bytes) (r : ℕ) → Known w c r → Known w' c r
  Known-persists c r (inl e) = inl e
  Known-persists c r (inr e) = inr (l.proposals_stay r c e)

  pub Bounded-persists :
      (i round r : ℕ) → round ≤ w.rounds i → Bounded w i round r → Bounded w' i round r
  Bounded-persists i round r b h q k a = h q k (sym (l.acks_now i q (omega arith)) ∙ a)

  pub Chosen-persists : (c : Bytes) → Chosen n w c → Chosen n w' c
  Chosen-persists c h = record {
    at = h.at;
    by = h.by;
    positive = h.positive;
    quorum = h.quorum;
    all_acked = All-map_of h.by (λ i a. l.acks_stay i h.at a) h.all_acked;
    proposed_at = l.proposals_stay h.at c h.proposed_at;
  }

  pub Blocked-persists : (r : ℕ) → Blocked n w r → Blocked n w' r
  Blocked-persists r h = record {
    who = h.who;
    quorum = h.quorum;
    all_passed =
        All-map_of h.who (λ i p. (omega (arith, p.0, l.rounds_grow i), l.acks_now i r p.0 ∙ p.1))
          h.all_passed;
  }

  -- A step without a proposal.
  pub Safe-persists : ((q : ℕ) → w'.proposal q ≡ w.proposal q) → Safe n w → Safe n w'
  Safe-persists same h r r' c p k e = elim (h r r' c p k (sym (same r') ∙ e)) [
    | inl f ↦ inl (l.proposals_stay r c f)
    | inr b ↦ inr (Blocked-persists r b)
  ]
