-- ===== src/CircularInt/Order.antt =====
-- The circular order: what <=>, less and less_equal say of two counters that are near each other.
use cs2620_s26_psets.Base.{ℕ, ◌^◌, ◌≤◌, ◌<◌, ◌≡◌, ◌≢◌, ◌↔◌, true, false, arith}
use Prim.Native.Nat.{Ordering}
use cs2620_s26_psets.CircularInt.{less, less_equal, add, IsWord, order, modulus}

less-ahead :
    (a n : ℕ) → IsWord a → n < modulus → (less a (add a n) ≡ true) ↔ ((0 < n) × (n ≤ 2 ^ 31))
unfolding less add
less-ahead a n ha hn = ground arith

-- On 32-bit counters: less is true exactly where <=> is less, less_equal exactly where <=> is not
-- greater, and <=> is equal exactly on equal counters. A counter is less than another exactly if
-- that one is ahead of it by 1 up to 2^31 steps.
pub order-less :
    (a b n : ℕ)
    → IsWord a
    → IsWord b
    → n < modulus
    → ((less a b ≡ true) ↔ (order a b ≡ Ordering.lt))
      × ((less_equal a b ≡ true) ↔ (order a b ≢ Ordering.gt))
      × ((order a b ≡ Ordering.eq) ↔ (a ≡ b))
      × ((less a (add a n) ≡ true) ↔ ((0 < n) × (n ≤ 2 ^ 31)))
unfolding less less_equal order
order-less a b n ha hb hn = (ground arith, ground arith, ground arith, less-ahead a n ha hn)

-- Two different counters are comparable one way only, unless they are 2 ^ 31 apart.
pub less_asymmetric :
    (a b : ℕ)
    → IsWord a
    → IsWord b
    → a ≢ b
    → add a (2 ^ 31) ≢ b
    → (less a b ≡ true) ↔ (less b a ≡ false)
unfolding less add
less_asymmetric a b ha hb ne far = ground arith

-- Counters drawn from one window of 2^31 values compare in the circular order exactly as they were
-- drawn, for any 32-bit counter at the start of the window.
pub less_window :
    (base i j : ℕ)
    → IsWord base
    → i < 2 ^ 31
    → j < 2 ^ 31
    → (less (add base i) (add base j) ≡ true) ↔ (i < j)
unfolding less add
less_window base i j hb hi hj = ground arith
