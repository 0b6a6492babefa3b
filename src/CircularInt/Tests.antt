-- ===== src/CircularInt/Tests.antt =====
-- The theorems on circular_int at counters near the wrap.
use cs2620_s26_psets.Base.{
  negsuc, ℕ, ◌+◌, ◌-◌, ◌%◌, ◌^◌, ◌≤◌, ◌<◌, ◌≡◌, refl, ◌≢◌, ◌↔◌, true, false, arith, ◌==◌,
  if◌then◌else◌, pos_part, pos, neg_part,
}
use Prim.Native.Nat.{Ordering}
use cs2620_s26_psets.CircularInt.{
  increment, subtract, post_increment, next_nonzero, add, less, order, post_decrement, IsWord,
  difference, decrement, modulus, less_equal, remainder, remainder_long,
}
use cs2620_s26_psets.CircularInt.Order.{less_asymmetric, less_window, order-less}
use cs2620_s26_psets.CircularInt.Laws.{post_returns_old, wrapped_arithmetic}

abbrev last : ℕ
last = 0xffff_ffff

wraps :
    (increment last ≡ 0)
    × (next_nonzero last ≡ 1)
    × (difference 2 last ≡ pos 3)
    × (less last 2 ≡ true)
unfolding increment next_nonzero difference less
wraps = (refl, refl, refl, refl)

-- Two counters 2 ^ 31 apart are each less than the other.
antipodes : (less 5 0x8000_0005 ≡ true) × (less 0x8000_0005 5 ≡ true)
unfolding less
antipodes = (refl, refl)

post_returns_old_example :
    (post_increment last ≡ (increment last, last)) × (post_decrement last ≡ (decrement last, last))
post_returns_old_example = post_returns_old last (omega arith)

wrapped_arithmetic_example :
    (subtract (add last 7) 7 ≡ last)
    × (add (subtract last 7) 7 ≡ last)
    × (decrement (increment last) ≡ last)
    × (increment (decrement last) ≡ last)
    × (last ≡ (3 + pos_part (difference last 3) + modulus - neg_part (difference last 3)) % modulus)
    × (pos_part (difference last 3) < 2 ^ 31)
    × (neg_part (difference last 3) ≤ 2 ^ 31)
    × (0 < next_nonzero last)
    × IsWord (next_nonzero last)
    × (next_nonzero last
        ≡ (if increment last == 0 then increment (increment last) else increment last))
wrapped_arithmetic_example = wrapped_arithmetic last 7 3 (omega arith) (omega arith)

order-less_example :
    ((less last 3 ≡ true) ↔ (order last 3 ≡ Ordering.lt))
    × ((less_equal last 3 ≡ true) ↔ (order last 3 ≢ Ordering.gt))
    × ((order last 3 ≡ Ordering.eq) ↔ (last ≡ 3))
    × ((less last (add last 9) ≡ true) ↔ ((0 < 9) × (9 ≤ 2 ^ 31)))
order-less_example = order-less last 3 9 (omega arith) (omega arith) (omega arith)

less_asymmetric_example : (less last 3 ≡ true) ↔ (less 3 last ≡ false)
unfolding add
less_asymmetric_example =
    less_asymmetric last 3 (omega arith) (omega arith) (omega arith) (omega arith)

less_window_example : (less (add last 2) (add last 5) ≡ true) ↔ (2 < 5)
less_window_example = less_window last 2 5 (omega arith) (omega arith) (omega arith)

remainders : (remainder last 10 ≡ 5) × (remainder_long last (negsuc 9) ≡ 5)
unfolding remainder remainder_long
remainders = (refl, refl)
