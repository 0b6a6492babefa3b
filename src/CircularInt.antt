-- ===== src/CircularInt.antt =====
-- circular_int<unsigned> of cotamer/circular_int.hh (and its copy in pset2/detail): a 32-bit counter
-- that wraps, compared by the sign of the difference. A value is its bit pattern, below 2 ^ 32. The
-- operators that take an int, a long or a long long convert it to its 32-bit pattern first.
pub mod Laws
pub mod Order
mod Tests
use cs2620_s26_psets.Base.{
  ℕ, zero, suc, ◌+◌, ◌-◌, ◌*◌, ◌/◌, ◌%◌, ◌^◌, ◌≤◌, ◌<◌, ◌≡◌, refl, sym, ap, ◌∙◌, ◌≢◌, ◌↔◌, ◌⊎◌, inl,
  inr, Bool, true, false, not, ◌&&◌, ◌||◌, Option, none, some, List, [], ◌∷◌, ◌++◌, map, arith, ltb,
  leb, ◌==◌, if◌then◌else◌, Bool-cases, Option-cases, length, All, ltb_ℤ, ℤ, leb_ℤ, pos, negsuc,
}
use Prim.Native.Nat.{Ordering}

abbrev pub modulus : ℕ
modulus = 2 ^ 32

abbrev pub IsWord : ℕ → Type 0
IsWord v = v < modulus

-- `difference_type(v)` for a pattern v.
abbrev pub signed : ℕ → ℤ
signed v = if ltb v (2 ^ 31) then pos v else negsuc (modulus - v - 1)

-- `++v_` and `--v_`.
unfoldable pub increment : ℕ → ℕ
increment v = (v + 1) % modulus

unfoldable pub decrement : ℕ → ℕ
decrement v = (v + modulus - 1) % modulus

-- The postfix forms return the new counter and `circular_int<T>(v_ - 1)`, `circular_int<T>(v_ + 1)`.
unfoldable pub post_increment : ℕ → ℕ × ℕ
unfolding increment
post_increment v = let v' = increment v in (v', (v' + modulus - 1) % modulus)

unfoldable pub post_decrement : ℕ → ℕ × ℕ
unfolding decrement
post_decrement v = let v' = decrement v in (v', (v' + 1) % modulus)

-- `v_ + x` and `v_ - x`, also as `+=` and `-=`.
unfoldable pub add : ℕ → ℕ → ℕ
add v x = (v + x) % modulus

unfoldable pub subtract : ℕ → ℕ → ℕ
subtract v x = (v + modulus - x % modulus) % modulus

-- `v + !v`, where `v` is one more.
unfoldable pub next_nonzero : ℕ → ℕ
next_nonzero v = let w = (v + 1) % modulus in (w + (if w == 0 then 1 else 0)) % modulus

-- `operator-(circular_int<T>)`.
unfoldable pub difference : ℕ → ℕ → ℤ
difference v x = signed ((v + modulus - x) % modulus)

-- `operator%`, for a divisor that is not zero: an unsigned one, or an int by its 32-bit pattern; and
-- a long, of which only the magnitude matters.
unfoldable pub remainder : ℕ → ℕ → ℕ
remainder v x = v % x

unfoldable pub remainder_long : ℕ → ℤ → ℕ
remainder_long v (pos x) = v % x
remainder_long v (negsuc k) = v % (k + 1)

unfoldable pub is_zero : ℕ → Bool
is_zero v = v == 0

-- `operator<=>`.
unfoldable pub order : ℕ → ℕ → Ordering
order v x =
    if v == x
    then Ordering.eq
    else if ltb_ℤ (signed ((v + modulus - x) % modulus)) (pos 0)
    then Ordering.lt
    else Ordering.gt

unfoldable pub less : ℕ → ℕ → Bool
less a b = ltb_ℤ (signed ((a + modulus - b) % modulus)) (pos 0)

unfoldable pub less_equal : ℕ → ℕ → Bool
less_equal a b = leb_ℤ (signed ((a + modulus - b) % modulus)) (pos 0)
