-- ===== src/Http/Lookup.antt =====
-- The status messages of cotamer/http.cc: binary search finds what a search from the start finds.
use cs2620_s26_psets.Base.{
  ℕ, zero, suc, ◌+◌, ◌-◌, ◌/◌, ◌≤◌, ◌<◌, ◌≡◌, refl, sym, inl, inr, Bool, true, false, ◌&&◌, none,
  some, List, [], ◌∷◌, arith, ltb, ◌==◌, if◌then◌else◌, Bool-cases, Option-cases, length, get_elem?,
  ==_iff,
}
use cs2620_s26_psets.Bytes.{Bytes, codes}
use cs2620_s26_psets.Http.Status.{
  StatusCode, lower_bound, message_at, default_status_message, default_status_codes,
}

abbrev pub Table : Type 0
Table = List StatusCode

-- The first message for a code.
unfoldable pub find_message : (ℕ → Bytes) → Table → ℕ → Bytes
find_message other [] code = other code
find_message other (m ∷ table) code =
    if m.code == code then m.message else find_message other table code

unfoldable ascend : ℕ → Table → Bool
ascend b [] = true
ascend b (m ∷ table) = ltb b m.code && ascend m.code table

ascend-above :
    (b : ℕ) (table : Table) (j : ℕ) (m : StatusCode)
    → ascend b table ≡ true
    → get_elem? table j ≡ some m
    → b < m.code
unfolding ascend
ascend-above b [] j m h e = cc
ascend-above b (x ∷ table) zero m h e = ground (arith, h, e)
ascend-above b (x ∷ table) (suc j) m h e = ground (arith, h, e, ascend-above x.code table j m)

ascend-order :
    (b : ℕ) (table : Table) (i j : ℕ) (k m : StatusCode)
    → ascend b table ≡ true
    → i < j
    → get_elem? table i ≡ some k
    → get_elem? table j ≡ some m
    → k.code < m.code
unfolding ascend
ascend-order b [] i j k m h l d e = cc
ascend-order b (x ∷ table) zero zero k m h l d e = absurd (omega arith)
ascend-order b (x ∷ table) (suc i) zero k m h l d e = absurd (omega arith)
ascend-order b (x ∷ table) zero (suc j) k m h l d e =
    ground (arith, h, d, e, ascend-above x.code table j m)
ascend-order b (x ∷ table) (suc i) (suc j) k m h l d e =
    ground (arith, h, l, d, e, ascend-order x.code table i j k m)

-- Entries before the place are for smaller codes, and those from it on are not.
abbrev IsPlace : Table → ℕ → ℕ → Type 0
IsPlace table code p =
    ((i : ℕ) (m : StatusCode) → i < p → get_elem? table i ≡ some m → m.code < code)
    × ((i : ℕ) (m : StatusCode) → p ≤ i → get_elem? table i ≡ some m → code ≤ m.code)

find_message-absent :
    (other : ℕ → Bytes) (b : ℕ) (table : Table) (code : ℕ)
    → ascend b table ≡ true
    → code ≤ b
    → find_message other table code ≡ other code
unfolding find_message ascend
find_message-absent other b [] code h l = refl
find_message-absent other b (x ∷ table) code h l =
    ground (arith, h, l, find_message-absent other x.code table code)

find_message-place :
    (other : ℕ → Bytes) (b : ℕ) (table : Table) (code p : ℕ)
    → ascend b table ≡ true
    → IsPlace table code p
    → find_message other table code ≡ message_at other code (get_elem? table p)
unfolding find_message message_at ascend
find_message-place other b [] code p a h = refl
find_message-place other b (x ∷ table) code zero a h =
    ground (arith, a, h.1 0 x, find_message-absent other x.code table code)
find_message-place other b (x ∷ table) code (suc p) a h = ground (
  arith,
  a,
  h.0 0 x,
  find_message-place other x.code table code p (later a)
      ((λ i m l e. h.0 (suc i) m (omega arith) e), (λ i m l e. h.1 (suc i) m (omega arith) e)),
)
  where
    later : ascend b (x ∷ table) ≡ true → ascend x.code table ≡ true
    later a = ground (arith, a)

get_elem?-some : (table : Table) (i : ℕ) → get_elem? table i ≡ none → length table ≤ i
get_elem?-some [] i e = omega arith
get_elem?-some (x ∷ table) zero e = cc
get_elem?-some (x ∷ table) (suc i) e = omega (arith, get_elem?-some table i e)

lower_bound-IsPlace :
    (fuel : ℕ) (b : ℕ) (table : Table) (first count code : ℕ)
    → ascend b table ≡ true
    → count < fuel
    → first + count ≤ length table
    → ((i : ℕ) (m : StatusCode) → i < first → get_elem? table i ≡ some m → m.code < code)
    → ((i : ℕ) (m : StatusCode) → first + count ≤ i → get_elem? table i ≡ some m → code ≤ m.code)
    → IsPlace table code (lower_bound fuel table first count code)
unfolding lower_bound
lower_bound-IsPlace zero b table first count code a f l before after = absurd (omega arith)
lower_bound-IsPlace (suc fuel) b table first zero code a f l before after =
    (before, (λ i m g e. after i m (omega arith) e))
lower_bound-IsPlace (suc fuel) b table first (suc c) code a f l before after =
    elim (Option-cases (get_elem? table (first + suc c / 2))) [
      | inl e ↦ absurd (omega (arith, get_elem?-some table (first + suc c / 2) e))
      | inr (k, e) ↦ elim (Bool-cases (ltb k.code code)) [
        | inl d ↦
            rw (lower_bound, e, d)
              (lower_bound-IsPlace fuel b table (first + suc c / 2 + 1) (suc c - (suc c / 2 + 1))
                code a (omega arith) (omega arith) (smaller k e d)
                (λ i m g h. after i m (omega arith) h))
        | inr d ↦
            rw (lower_bound, e, d)
              (lower_bound-IsPlace fuel b table first (suc c / 2) code a (omega arith) (omega arith)
                before (larger k e d))
      ]
    ]
  where
    smaller :
        (k : StatusCode)
        → get_elem? table (first + suc c / 2) ≡ some k
        → ltb k.code code ≡ true
        → (i : ℕ) (m : StatusCode) → i < first + suc c / 2 + 1
        → get_elem? table i ≡ some m
        → m.code < code
    smaller k e d i m g h = elim (Bool-cases (i == first + suc c / 2)) [
      | inl q ↦ ground (arith, e, d, h, q)
      | inr q ↦
          ground (arith, d, g, q, ascend-order b table i (first + suc c / 2) m k a (ne q g) h e)
    ]
      where
        ne : (i == first + suc c / 2) ≡ false → i < first + suc c / 2 + 1 → i < first + suc c / 2
        ne q g = ground (arith, q, g)

    larger :
        (k : StatusCode)
        → get_elem? table (first + suc c / 2) ≡ some k
        → ltb k.code code ≡ false
        → (i : ℕ) (m : StatusCode) → first + suc c / 2 ≤ i
        → get_elem? table i ≡ some m
        → code ≤ m.code
    larger k e d i m g h = elim (Bool-cases (i == first + suc c / 2)) [
      | inl q ↦ ground (arith, e, d, h, q)
      | inr q ↦
          ground (arith, d, g, q, ascend-order b table (first + suc c / 2) i k m a (ne q g) e h)
    ]
      where
        ne : (i == first + suc c / 2) ≡ false → first + suc c / 2 ≤ i → first + suc c / 2 < i
        ne q g = ground (arith, q, g)

codes_ascend : ascend 0 default_status_codes ≡ true
unfolding ascend
codes_ascend = refl

get_elem?-beyond : (table : Table) (i : ℕ) → length table ≤ i → get_elem? table i ≡ none
get_elem?-beyond [] i l = refl
get_elem?-beyond (x ∷ table) zero l = absurd (omega arith)
get_elem?-beyond (x ∷ table) (suc i) l = get_elem?-beyond table i (omega arith)

ok_message :
    (other : ℕ → Bytes) (code : ℕ)
    → code ≡ 200
    → find_message other default_status_codes code ≡ codes "OK"
unfolding find_message
ok_message other code e = rw e refl

-- The message for a code is the first in the table for it, and the one of llhttp if the table has
-- none.
pub default_status_message_lem :
    (other : ℕ → Bytes) (code : ℕ)
    → default_status_message other code ≡ find_message other default_status_codes code
unfolding default_status_message
default_status_message_lem other code = elim (Bool-cases (code == 200)) [
  | inl e ↦ rw (default_status_message, e) (sym (ok_message other code ((==_iff code 200).0 e)))
  | inr e ↦
      rw (default_status_message, e)
        (sym (
          find_message-place other 0 default_status_codes code _ codes_ascend (
            lower_bound-IsPlace (suc (length default_status_codes)) 0 default_status_codes 0
              (length default_status_codes) code codes_ascend (omega arith) (omega arith)
              (λ i m l e. absurd (omega arith)) (beyond code))))
]
  where
    beyond :
        (code i : ℕ) (m : StatusCode)
        → length default_status_codes ≤ i
        → get_elem? default_status_codes i ≡ some m
        → code ≤ m.code
    beyond code i m l e = absurd (cc (get_elem?-beyond default_status_codes i l, e))
