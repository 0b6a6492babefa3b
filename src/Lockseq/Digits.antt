-- ===== src/Lockseq/Digits.antt =====
-- parse_digits of pset3/lockseq_model.cc. The bytes are those of the string; reading at the size
-- of the string gives the terminating zero, which is not a digit.
use cs2620_s26_psets.Base.{
  ℕ, zero, suc, ◌+◌, ◌-◌, ◌*◌, ◌%◌, ◌^◌, ◌≤◌, ◌<◌, ◌≡◌, refl, ◌≢◌, Bool, true, not, ◌&&◌, ◌||◌,
  none, some, [], ◌∷◌, ◌++◌, arith, ltb, leb, if◌then◌else◌, length, All, get_elem?,
}
use cs2620_s26_psets.Bytes.{Bytes}

-- `unsigned(-1)`.
abbrev pub unsigned_max : ℕ
unsigned_max = 2 ^ 32 - 1

abbrev pub is_digit : ℕ → Bool
is_digit ch = leb 48 ch && leb ch 57

-- `v * 10 + ch - '0'` in `unsigned`, for a digit `ch`.
abbrev pub next_value : ℕ → ℕ → ℕ
next_value v ch = (v * 10 + (ch - 48)) % 2 ^ 32

-- The loop, with `to - from` as its count.
unfoldable pub parse_loop : Bytes → ℕ → ℕ → ℕ → ℕ
parse_loop s zero from v = v
parse_loop s (suc count) from v = elim (get_elem? s from) [
  | none ↦ unsigned_max
  | some ch ↦
      (let rest = parse_loop s count (suc from) (next_value v ch) in
        if not (is_digit ch) || ltb (next_value v ch) v then unsigned_max else rest)
]

unfoldable pub parse_digits : Bytes → ℕ → ℕ → ℕ
parse_digits s from to = if leb to from then unsigned_max else parse_loop s (to - from) from 0

-- The number that digits denote, after the digits that denote `v`.
unfoldable pub decimal : ℕ → Bytes → ℕ
decimal v [] = v
decimal v (ch ∷ ds) = decimal (v * 10 + (ch - 48)) ds

abbrev pub AreDigits : Bytes → Type 0
AreDigits ds = All (λ ch. is_digit ch ≡ true) ds

-- The bytes `ds` stand in `s` from a position on.
unfoldable Stand : Bytes → ℕ → Bytes → Type 0
Stand s from [] = Unit
Stand s from (ch ∷ ds) = (get_elem? s from ≡ some ch) × Stand s (suc from) ds

Stand-later :
    (x : ℕ) (s : Bytes) (from : ℕ) (ds : Bytes) → Stand s from ds → Stand (x ∷ s) (suc from) ds
unfolding Stand
Stand-later x s from [] h = tt
Stand-later x s from (ch ∷ ds) h = (h.0, Stand-later x s (suc from) ds h.1)

Stand-start : (ds post : Bytes) → Stand (ds ++ post) 0 ds
unfolding Stand
Stand-start [] post = tt
Stand-start (ch ∷ ds) post = (refl, Stand-later ch (ds ++ post) 0 ds (Stand-start ds post))

Stand-append : (pre ds post : Bytes) → Stand (pre ++ (ds ++ post)) (length pre) ds
Stand-append [] ds post = Stand-start ds post
Stand-append (x ∷ pre) ds post =
    Stand-later x (pre ++ (ds ++ post)) (length pre) ds (Stand-append pre ds post)

decimal_le : (v : ℕ) (ds : Bytes) → v ≤ decimal v ds
unfolding decimal
decimal_le v [] = omega arith
decimal_le v (ch ∷ ds) = omega (arith, decimal_le (v * 10 + (ch - 48)) ds)

next_value_lem :
    (v ch : ℕ) (ds : Bytes) → decimal v (ch ∷ ds) < 2 ^ 32 → next_value v ch ≡ v * 10 + (ch - 48)
unfolding decimal
next_value_lem v ch ds b = omega (arith, decimal_le (v * 10 + (ch - 48)) ds)

parse_loop_lem :
    (s : Bytes) (from v : ℕ) (ds : Bytes)
    → Stand s from ds
    → AreDigits ds
    → decimal v ds < 2 ^ 32
    → parse_loop s (length ds) from v ≡ decimal v ds
unfolding parse_loop Stand decimal
parse_loop_lem s from v [] st h b = refl
parse_loop_lem s from v (ch ∷ ds) st h b = ground (
  arith,
  st,
  h,
  b,
  decimal_le (v * 10 + (ch - 48)) ds,
  next_value_lem v ch ds b,
  parse_loop_lem s (suc from) (v * 10 + (ch - 48)) ds st.1 h.1 b,
)

-- On one digit or more, at any place in a string, parse_digits gives the number that they denote,
-- if that is below 2^32.
pub parse_digits_value :
    (pre ds post : Bytes)
    → AreDigits ds
    → ds ≢ []
    → decimal 0 ds < 2 ^ 32
    → parse_digits (pre ++ (ds ++ post)) (length pre) (length pre + length ds) ≡ decimal 0 ds
unfolding parse_digits
parse_digits_value pre [] post h n b = ground (arith, n)
parse_digits_value pre (ch ∷ ds) post h n b = ground (
  arith,
  parse_loop_lem (pre ++ (ch ∷ (ds ++ post))) (length pre) 0 (ch ∷ ds)
      (Stand-append pre (ch ∷ ds) post) h b,
)
