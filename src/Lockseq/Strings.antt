-- ===== src/Lockseq/Strings.antt =====
-- Laws of the string functions that lockseq_model::check uses, pset3/lockseq_model.cc.
use cs2620_s26_psets.Base.{
  ℕ, ◌≡◌, refl, ap, true, some, [], ◌∷◌, ◌++◌, arith, length, get_elem?, drop, take, ==_iff,
}
use cs2620_s26_psets.Bytes.{Bytes}
use cs2620_s26_psets.Lockseq.Check.{char_is, find_char, starts_with}
use cs2620_s26_psets.Lockseq.Digits.{AreDigits}

pub starts_with-append : (pre s : Bytes) → starts_with (pre ++ s) pre ≡ true
unfolding starts_with
starts_with-append [] s = refl
starts_with-append (x ∷ pre) s = rw ((==_iff x x).1 refl) (starts_with-append pre s)

pub drop-append : (pre s : Bytes) → drop (length pre) (pre ++ s) ≡ s
drop-append [] s = refl
drop-append (x ∷ pre) s = drop-append pre s

pub take-append : (pre s : Bytes) → take (length pre) (pre ++ s) ≡ pre
take-append [] s = refl
take-append (x ∷ pre) s = ap (λ t. x ∷ t) (take-append pre s)

pub get_elem?-append :
    (pre : Bytes) (ch : ℕ) (s : Bytes) → get_elem? (pre ++ (ch ∷ s)) (length pre) ≡ some ch
get_elem?-append [] ch s = refl
get_elem?-append (x ∷ pre) ch s = get_elem?-append pre ch s

pub char_is-append :
    (pre : Bytes) (ch : ℕ) (s : Bytes) → char_is (pre ++ (ch ∷ s)) (length pre) ch ≡ true
unfolding char_is
char_is-append pre ch s = rw (char_is, get_elem?-append pre ch s) ((==_iff ch ch).1 refl)

-- The first slash after a letter and digits.
pub find_char-append :
    (ds s : Bytes) → AreDigits ds → find_char 47 (ds ++ (47 ∷ s)) ≡ some (length ds)
unfolding find_char
find_char-append [] s h = refl
find_char-append (d ∷ ds) s h = ground (arith, h, find_char-append ds s h.1)
