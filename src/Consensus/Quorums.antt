-- ===== src/Consensus/Quorums.antt =====
-- Majorities of the servers of pset2/ctconsensus.cc.
use mathlib.Core.Path.{subst}
use cs2620_s26_psets.Base.{
  ℕ, zero, suc, [], ◌∷◌, ◌≡◌, ◌≤◌, ◌<◌, ◌==◌, ◌+◌, inl, inr, List, All, arith, ltb, length,
  Bool-cases, refl, ==_iff, leb,
}
use cs2620_s26_psets.Consensus.Once.{occurrences, one_if}
use cs2620_s26_psets.Consensus.World.{IsQuorum}

-- The sum of the occurrences of all numbers below n.
unfoldable total : ℕ → List ℕ → ℕ
unfolding occurrences
total zero ids = 0
total (suc n) ids = total n ids + occurrences n ids

total-nil : (n : ℕ) → total n [] ≡ 0
unfolding total occurrences
total-nil zero = refl
total-nil (suc n) = omega (arith, total-nil n)

total-cons : (n x : ℕ) (ids : List ℕ) → total n (x ∷ ids) ≡ one_if (ltb x n) + total n ids
unfolding total occurrences
total-cons zero x ids = ground arith
total-cons (suc n) x ids = ground (arith, total-cons n x ids)

total-length : (n : ℕ) (ids : List ℕ) → All (λ i. i < n) ids → total n ids ≡ length ids
total-length n [] h = total-nil n
total-length n (x ∷ ids) h = ground (arith, total-cons n x ids, total-length n ids h.1)

-- Two lists that are longer than n together meet.
meet :
    (n : ℕ) (xs ys : List ℕ)
    → ((i : ℕ) → occurrences i xs ≤ 1)
    → ((i : ℕ) → occurrences i ys ≤ 1)
    → n < total n xs + total n ys
    → (i : ℕ) × (1 ≤ occurrences i xs) × (1 ≤ occurrences i ys)
unfolding total
meet zero xs ys h k l = absurd (omega arith)
meet (suc n) xs ys h k l = elim (Bool-cases (leb 2 (occurrences n xs + occurrences n ys))) [
  | inl e ↦ (n, ground (arith, e, h n, k n), ground (arith, e, h n, k n))
  | inr e ↦ meet n xs ys h k (ground (arith, e, l))
]

All-occurs {ℓ} : (P : ℕ → Type ℓ) (i : ℕ) (ids : List ℕ) → All P ids → 1 ≤ occurrences i ids → P i
unfolding occurrences
All-occurs P i [] h o = absurd (omega arith)
All-occurs P i (x ∷ ids) h o = elim (Bool-cases (x == i)) [
  | inl e ↦ subst P ((==_iff x i).0 e) h.0
  | inr e ↦ All-occurs P i ids h.1 (ground (arith, e, o))
]

-- Two majorities have a server in common.
pub quorums-meet {ℓ κ} :
    (P : ℕ → Type ℓ) (Q : ℕ → Type κ) (n : ℕ) (xs ys : List ℕ)
    → IsQuorum n xs
    → IsQuorum n ys
    → All P xs
    → All Q ys
    → (i : ℕ) × P i × Q i
quorums-meet P Q n xs ys h k p q =
    let (i, a, b) = meet n xs ys h.once k.once (
      omega
        (arith, total-length n xs h.inside, total-length n ys k.inside, h.majority, k.majority)) in
    (i, All-occurs P i xs p a, All-occurs Q i ys q b)
