-- ===== src/Bytes.antt =====
-- `std::string` as the list of its bytes, with its equality and its order: `operator==` and
-- `operator<=>` compare bytes as unsigned numbers from the left, and a proper prefix comes first.
use Prim.Native.String.{String}
use Prim.Native.Nat.{compare, Ordering}
use Prim.Native.Char.{code}
use cs2620_s26_psets.Base.{ℕ, ◌≡◌, refl, ◌↔◌, Bool, true, false, ◌&&◌, List, [], ◌∷◌, arith, ◌==◌}

abbrev pub Bytes : Type 0
Bytes = List ℕ

unfoldable pub str_eq : Bytes → Bytes → Bool
str_eq [] [] = true
str_eq [] (y ∷ ys) = false
str_eq (x ∷ xs) [] = false
str_eq (x ∷ xs) (y ∷ ys) = x == y && str_eq xs ys

pub str_eq_iff : (s t : Bytes) → (str_eq s t ≡ true) ↔ (s ≡ t)
unfolding str_eq
str_eq_iff [] [] = ((λ _. refl), (λ _. refl))
str_eq_iff [] (y ∷ ys) = ((λ e. cc), (λ e. cc))
str_eq_iff (x ∷ xs) [] = ((λ e. cc), (λ e. cc))
str_eq_iff (x ∷ xs) (y ∷ ys) = ground (arith, str_eq_iff xs ys)

abbrev pub is_empty : Bytes → Bool
is_empty [] = true
is_empty (x ∷ s) = false

unfoldable pub str_cmp : Bytes → Bytes → Ordering
str_cmp [] [] = Ordering.eq
str_cmp [] (y ∷ ys) = Ordering.lt
str_cmp (x ∷ xs) [] = Ordering.gt
str_cmp (x ∷ xs) (y ∷ ys) = elim (compare x y) [
  | Ordering.eq ↦ str_cmp xs ys
  | Ordering.lt ↦ Ordering.lt
  | Ordering.gt ↦ Ordering.gt
]

pub str_cmp_refl : (s : Bytes) → str_cmp s s ≡ Ordering.eq
unfolding str_cmp
str_cmp_refl [] = refl
str_cmp_refl (x ∷ xs) = ground (arith, str_cmp_refl xs)

pub str_cmp_eq : (s t : Bytes) → str_cmp s t ≡ Ordering.eq → s ≡ t
unfolding str_cmp
str_cmp_eq [] [] e = refl
str_cmp_eq [] (y ∷ ys) e = cc
str_cmp_eq (x ∷ xs) [] e = cc
str_cmp_eq (x ∷ xs) (y ∷ ys) e = ground (arith, str_cmp_eq xs ys)

pub str_cmp_gt : (s t : Bytes) → str_cmp s t ≡ Ordering.gt → str_cmp t s ≡ Ordering.lt
unfolding str_cmp
str_cmp_gt [] [] e = cc
str_cmp_gt [] (y ∷ ys) e = cc
str_cmp_gt (x ∷ xs) [] e = refl
str_cmp_gt (x ∷ xs) (y ∷ ys) e = ground (arith, str_cmp_gt xs ys)

pub str_cmp_lt : (s t : Bytes) → str_cmp s t ≡ Ordering.lt → str_cmp t s ≡ Ordering.gt
unfolding str_cmp
str_cmp_lt [] [] e = cc
str_cmp_lt [] (y ∷ ys) e = refl
str_cmp_lt (x ∷ xs) [] e = cc
str_cmp_lt (x ∷ xs) (y ∷ ys) e = ground (arith, str_cmp_lt xs ys)

pub str_cmp_trans :
    (s t u : Bytes)
    → str_cmp s t ≡ Ordering.lt
    → str_cmp t u ≡ Ordering.lt
    → str_cmp s u ≡ Ordering.lt
unfolding str_cmp
str_cmp_trans [] (y ∷ ys) (z ∷ zs) p q = refl
str_cmp_trans (x ∷ xs) (y ∷ ys) (z ∷ zs) p q = ground (arith, str_cmp_trans xs ys zs)
str_cmp_trans [] [] u p q = cc
str_cmp_trans (x ∷ xs) [] u p q = cc
str_cmp_trans s (y ∷ ys) [] p q = cc

-- The bytes of an ASCII text.
abbrev pub codes : String → Bytes
codes String.[] = []
codes (String.◌∷◌ c s) = code c ∷ codes s
