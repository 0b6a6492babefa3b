-- ===== src/CircularInt/Laws.antt =====
-- Arithmetic of circular_int, also across the wrap.
use cs2620_s26_psets.Base.{
  ℕ, ◌+◌, ◌-◌, ◌%◌, ◌^◌, ◌≤◌, ◌<◌, ◌≡◌, arith, ◌==◌, if◌then◌else◌, pos_part, neg_part,
}
use cs2620_s26_psets.CircularInt.{
  next_nonzero, post_increment, add, difference, increment, IsWord, post_decrement, subtract,
  decrement, modulus,
}

-- Every operation yields a 32-bit value.
operations-IsWord :
    (v x : ℕ)
    → IsWord (increment v) × IsWord (decrement v) × IsWord (add v x) × IsWord (subtract v x)
unfolding increment decrement add subtract
operations-IsWord v x = omega arith

add-subtract :
    (v x : ℕ)
    → IsWord v
    → (subtract (add v x) x ≡ v)
      × (add (subtract v x) x ≡ v)
      × (decrement (increment v) ≡ v)
      × (increment (decrement v) ≡ v)
unfolding add subtract increment decrement
add-subtract v x h = omega arith

-- The postfix operators return the old value and store what the prefix operators store.
pub post_returns_old :
    (v : ℕ)
    → IsWord v
    → (post_increment v ≡ (increment v, v)) × (post_decrement v ≡ (decrement v, v))
unfolding post_increment post_decrement
post_returns_old v h = ground arith

next_nonzero_lem :
    (v : ℕ)
    → IsWord v
    → (0 < next_nonzero v)
      × IsWord (next_nonzero v)
      × (next_nonzero v ≡ (if increment v == 0 then increment (increment v) else increment v))
unfolding next_nonzero increment
next_nonzero_lem v h = ground arith

add-difference :
    (v x : ℕ)
    → IsWord v
    → IsWord x
    → (v ≡ (x + pos_part (difference v x) + modulus - neg_part (difference v x)) % modulus)
      × (pos_part (difference v x) < 2 ^ 31)
      × (neg_part (difference v x) ≤ 2 ^ 31)
unfolding difference
add-difference v x hv hx = ground arith

-- On 32-bit counters: adding and taking away any number, in either order, and ++ and --, in either
-- order, leave a counter as it was. The difference of two counters, added to the second, gives the
-- first; it is at least -2^31 and below 2^31. next_nonzero is positive and a 32-bit value: the
-- successor, or the successor of that if it is 0.
pub wrapped_arithmetic :
    (v x w : ℕ)
    → IsWord v
    → IsWord w
    → (subtract (add v x) x ≡ v)
      × (add (subtract v x) x ≡ v)
      × (decrement (increment v) ≡ v)
      × (increment (decrement v) ≡ v)
      × (v ≡ (w + pos_part (difference v w) + modulus - neg_part (difference v w)) % modulus)
      × (pos_part (difference v w) < 2 ^ 31)
      × (neg_part (difference v w) ≤ 2 ^ 31)
      × (0 < next_nonzero v)
      × IsWord (next_nonzero v)
      × (next_nonzero v ≡ (if increment v == 0 then increment (increment v) else increment v))
wrapped_arithmetic v x w hv hw =
    let a = add-subtract v x hv in
    let d = add-difference v w hv hw in
    let n = next_nonzero_lem v hv in (a.0, a.1, a.2, a.3, d.0, d.1, d.2, n.0, n.1, n.2)
