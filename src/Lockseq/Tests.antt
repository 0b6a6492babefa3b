-- ===== src/Lockseq/Tests.antt =====
-- Examples for the test clients.
use cs2620_s26_psets.Base.{◌+◌, ◌-◌, ◌≡◌, refl, [], ◌∷◌, arith, length}
use cs2620_s26_psets.Lockseq.Digits.{parse_digits, decimal, parse_digits_value, parse_loop}
use cs2620_s26_psets.Lockseq.Keys.{make_value_key, make_group_key, parse-make_value_key}
use cs2620_s26_psets.Pancy.Db.{Pancydb, init}
use cs2620_s26_psets.Lockseq.Accepts.{group_entries}

-- "a427/".
parse_digits_value_example :
    parse_digits (97 ∷ 52 ∷ 50 ∷ 55 ∷ 47 ∷ []) 1 4 ≡ decimal 0 (52 ∷ 50 ∷ 55 ∷ [])
unfolding decimal
parse_digits_value_example =
    parse_digits_value (97 ∷ []) (52 ∷ 50 ∷ 55 ∷ []) (47 ∷ []) (refl, (refl, (refl, tt))) (λ e. cc)
      (omega arith)

parse-make_value_key_example :
    let key = make_value_key 27 5 in
    let glen = length (make_group_key 27) + 1 in
    (parse_digits key 1 (glen - 1) ≡ 27) × (parse_digits key (glen + 1) (glen + 4) ≡ 5)
parse-make_value_key_example = parse-make_value_key 27 5 (omega arith) (omega arith)

abbrev group_db : Pancydb
group_db = record init { db = group_entries 7 (record { value = 99 ∷ []; version = 3 }) 2 0 }

-- "8589934590" is 2^33 - 2, and passes the test for overflow.
overflow_missed :
    parse_digits (56 ∷ 53 ∷ 56 ∷ 57 ∷ 57 ∷ 51 ∷ 52 ∷ 53 ∷ 57 ∷ 48 ∷ []) 0 10 ≡ 4294967294
unfolding parse_digits parse_loop
overflow_missed = refl
