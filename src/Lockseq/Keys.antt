-- ===== src/Lockseq/Keys.antt =====
-- The keys of the test clients, pset3/lockseq_model.hh, and what parse_digits reads from them.
-- `std::format` of an `unsigned` is its decimal digits; ten of them are enough.
use native.Mathlib.Nat.{pow-succ'}
use cs2620_s26_psets.Base.{
  ℕ, zero, suc, ◌+◌, ◌-◌, ◌*◌, ◌/◌, ◌%◌, ◌^◌, ◌≤◌, ◌<◌, ◌≡◌, refl, sym, ap, ◌∙◌, ◌≢◌, inl, inr,
  true, [], ◌∷◌, ◌++◌, arith, ltb, if◌then◌else◌, Bool-cases, length, ltb→lt, All-append,
  length-append, append_nil, append_assoc,
}
use cs2620_s26_psets.Bytes.{Bytes}
use cs2620_s26_psets.Lockseq.Digits.{is_digit, decimal, AreDigits, parse_digits, parse_digits_value}

unfoldable pub format_digits : ℕ → ℕ → Bytes
format_digits zero n = []
format_digits (suc fuel) n =
    let upper = format_digits fuel (n / 10) in
    if ltb n 10 then (48 + n) ∷ [] else upper ++ ((48 + n % 10) ∷ [])

-- `{}`.
unfoldable pub format_unsigned : ℕ → Bytes
format_unsigned n = format_digits 10 n

unfoldable pub zeros : ℕ → Bytes
zeros zero = []
zeros (suc n) = 48 ∷ zeros n

-- `{:03}`.
unfoldable pub format_unsigned_03 : ℕ → Bytes
format_unsigned_03 n = zeros (3 - length (format_unsigned n)) ++ format_unsigned n

-- "c{}", "g{}", "g{}/lock" and "g{}/v{:03}".
unfoldable pub make_client_key : ℕ → Bytes
make_client_key cid = 99 ∷ format_unsigned cid

unfoldable pub make_group_key : ℕ → Bytes
make_group_key gid = 103 ∷ format_unsigned gid

unfoldable pub make_lock_key : ℕ → Bytes
make_lock_key gid = 103 ∷ (format_unsigned gid ++ (47 ∷ 108 ∷ 111 ∷ 99 ∷ 107 ∷ []))

unfoldable pub make_value_key : ℕ → ℕ → Bytes
make_value_key gid vid = 103 ∷ (format_unsigned gid ++ (47 ∷ 118 ∷ format_unsigned_03 vid))

decimal-append : (v : ℕ) (ds es : Bytes) → decimal v (ds ++ es) ≡ decimal (decimal v ds) es
unfolding decimal
decimal-append v [] es = refl
decimal-append v (d ∷ ds) es = decimal-append (v * 10 + (d - 48)) ds es

decimal-zeros : (k : ℕ) (ds : Bytes) → decimal 0 (zeros k ++ ds) ≡ decimal 0 ds
unfolding decimal zeros
decimal-zeros zero ds = refl
decimal-zeros (suc k) ds = decimal-zeros k ds

zeros-AreDigits : (k : ℕ) → AreDigits (zeros k)
unfolding zeros
zeros-AreDigits zero = tt
zeros-AreDigits (suc k) = (refl, zeros-AreDigits k)

decimal_one : (d v : ℕ) → decimal v ((48 + d) ∷ []) ≡ v * 10 + d
unfolding decimal
decimal_one d v = omega arith

is_digit_lem : (d : ℕ) → d < 10 → is_digit (48 + d) ≡ true
is_digit_lem d h = ground arith

pub format-AreDigits : (fuel n : ℕ) → AreDigits (format_digits fuel n)
unfolding format_digits
format-AreDigits zero n = tt
format-AreDigits (suc fuel) n = elim (Bool-cases (ltb n 10)) [
  | inl e ↦ rw (format_digits, e) (is_digit_lem n (ltb→lt n 10 e), tt)
  | inr e ↦
      rw (format_digits, e)
        (All-append (λ ch. is_digit ch ≡ true) (format_digits fuel (n / 10)) ((48 + n % 10) ∷ [])
          (format-AreDigits fuel (n / 10)) (is_digit_lem (n % 10) (omega arith), tt))
]

pub decimal-format : (fuel n : ℕ) → n < 10 ^ fuel → decimal 0 (format_digits fuel n) ≡ n
unfolding format_digits decimal
decimal-format zero n h = omega arith
decimal-format (suc fuel) n h = elim (Bool-cases (ltb n 10)) [
  | inl e ↦ rw (format_digits, e) (omega arith)
  | inr e ↦
      rw
        (
          format_digits,
          e,
          decimal-append 0 (format_digits fuel (n / 10)) ((48 + n % 10) ∷ []),
          decimal-format fuel (n / 10) (omega (arith, pow-succ' 10 fuel)),
        )
        (omega arith)
]

length-format_digits : (fuel n k : ℕ) → n < 10 ^ suc k → length (format_digits fuel n) ≤ suc k
unfolding format_digits
length-format_digits zero n k h = omega arith
length-format_digits (suc fuel) n zero h = ground (arith, h)
length-format_digits (suc fuel) n (suc k) h = elim (Bool-cases (ltb n 10)) [
  | inl e ↦ rw (format_digits, e) (omega arith)
  | inr e ↦
      rw (format_digits, e, length-append (format_digits fuel (n / 10)) ((48 + n % 10) ∷ []))
        (omega (arith, length-format_digits fuel (n / 10) k (omega (arith, pow-succ' 10 (suc k)))))
]

append_cons-nonempty : (xs : Bytes) (y : ℕ) (ys : Bytes) → (xs ++ (y ∷ ys)) ≢ []
append_cons-nonempty [] y ys e = cc
append_cons-nonempty (x ∷ xs) y ys e = cc

pub format-nonempty : (fuel n : ℕ) → format_digits (suc fuel) n ≢ []
unfolding format_digits
format-nonempty fuel n e =
    ground (arith, append_cons-nonempty (format_digits fuel (n / 10)) (48 + n % 10) [], e)

pub format_03-AreDigits : (n : ℕ) → AreDigits (format_unsigned_03 n)
unfolding format_unsigned_03 format_unsigned
format_03-AreDigits n =
    All-append (λ ch. is_digit ch ≡ true) (zeros (3 - length (format_unsigned n)))
      (format_unsigned n) (zeros-AreDigits (3 - length (format_unsigned n))) (format-AreDigits 10 n)

pub decimal-format_03 : (n : ℕ) → n < 1000 → decimal 0 (format_unsigned_03 n) ≡ n
unfolding format_unsigned_03 format_unsigned
decimal-format_03 n h =
    decimal-zeros (3 - length (format_unsigned n)) (format_unsigned n)
    ∙ decimal-format 10 n (omega arith)

length-zeros : (k : ℕ) → length (zeros k) ≡ k
unfolding zeros
length-zeros zero = refl
length-zeros (suc k) = omega (arith, length-zeros k)

pub length-format_03 : (n : ℕ) → n < 1000 → length (format_unsigned_03 n) ≡ 3
unfolding format_unsigned_03 format_unsigned
length-format_03 n h = omega (
  arith,
  length-append (zeros (3 - length (format_unsigned n))) (format_unsigned n),
  length-zeros (3 - length (format_unsigned n)),
  length-format_digits 10 n 2 h,
)

pub parse_at :
    (s pre ds post : Bytes) (from to : ℕ)
    → s ≡ pre ++ (ds ++ post)
    → from ≡ length pre
    → to ≡ length pre + length ds
    → AreDigits ds
    → ds ≢ []
    → decimal 0 ds < 2 ^ 32
    → parse_digits s from to ≡ decimal 0 ds
parse_at s pre ds post from to e f t h n b =
    ap (λ u. parse_digits u from to) e
    ∙ ap (λ u. parse_digits (pre ++ (ds ++ post)) u to) f
    ∙ ap (λ u. parse_digits (pre ++ (ds ++ post)) (length pre) u) t
    ∙ parse_digits_value pre ds post h n b

pub format_03-nonempty : (n : ℕ) → n < 1000 → format_unsigned_03 n ≢ []
format_03-nonempty n h e = ground (arith, length-format_03 n h, ap length e)

-- parse_digits reads back the group number and the value number of a value key, for group numbers
-- below 2^32 and value numbers below 1000.
pub parse-make_value_key :
    (gid vid : ℕ)
    → gid < 2 ^ 32
    → vid < 1000
    → let key = make_value_key gid vid in
      let glen = length (make_group_key gid) + 1 in
      (parse_digits key 1 (glen - 1) ≡ gid) × (parse_digits key (glen + 1) (glen + 4) ≡ vid)
unfolding make_value_key make_group_key format_unsigned
parse-make_value_key gid vid g v = (
  parse_at (make_value_key gid vid) (103 ∷ []) (format_digits 10 gid)
        (47 ∷ 118 ∷ format_unsigned_03 vid) 1 (length (make_group_key gid) + 1 - 1) refl refl
        (omega arith) (format-AreDigits 10 gid) (format-nonempty 9 gid)
        (omega (arith, decimal-format 10 gid (omega arith)))
      ∙ decimal-format 10 gid (omega arith),
  parse_at (make_value_key gid vid) (103 ∷ (format_digits 10 gid ++ (47 ∷ 118 ∷ [])))
        (format_unsigned_03 vid) [] (length (make_group_key gid) + 1 + 1)
        (length (make_group_key gid) + 1 + 4)
        (rw (append_nil (format_unsigned_03 vid)) (
          ap (λ t. 103 ∷ t)
            (sym (append_assoc (format_digits 10 gid) (47 ∷ 118 ∷ []) (format_unsigned_03 vid)))))
        (omega (arith, length-append (format_digits 10 gid) (47 ∷ 118 ∷ [])))
        (omega
          (arith, length-append (format_digits 10 gid) (47 ∷ 118 ∷ []), length-format_03 vid v))
        (format_03-AreDigits vid) (format_03-nonempty vid v)
        (omega (arith, decimal-format_03 vid v))
      ∙ decimal-format_03 vid v,
)
