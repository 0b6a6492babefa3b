-- ===== src/TimerHeap/Array.antt =====
-- The elements of the heap's memory block, as a list. A read outside of it gives `junk`, an element
-- of which nothing is known; a write outside of it does not happen.
use cs2620_s26_psets.Base.{
  ℕ, zero, suc, ◌-◌, ◌<◌, ◌≡◌, refl, ap, ◌∙◌, List, [], ◌∷◌, ◌++◌, arith, ◌==◌, if◌then◌else◌,
  length,
}
use mathlib.Core.List.{Perm, Permᴰ}
use mathlib.Core.List.Perm
use mathlib.Core.Logic.{∥∥₁_elim}
use native.Mathlib.Nat.{ℕ_set}

module _ {ℓ} {A : Type ℓ} where
  unfoldable pub set : List A → ℕ → A → List A
  set [] i v = []
  set (x ∷ xs) zero v = v ∷ xs
  set (x ∷ xs) (suc i) v = x ∷ set xs i v

  unfoldable pub drop_last : List A → List A
  drop_last [] = []
  drop_last (x ∷ []) = []
  drop_last (x ∷ y ∷ xs) = x ∷ drop_last (y ∷ xs)

  pub length-set : (xs : List A) (i : ℕ) (v : A) → length (set xs i v) ≡ length xs
  unfolding set
  length-set [] i v = refl
  length-set (x ∷ xs) zero v = refl
  length-set (x ∷ xs) (suc i) v = ap suc (length-set xs i v)

  pub length-drop_last : (xs : List A) → length (drop_last xs) ≡ length xs - 1
  unfolding drop_last
  length-drop_last [] = omega arith
  length-drop_last (x ∷ []) = omega arith
  length-drop_last (x ∷ y ∷ xs) = omega (arith, length-drop_last (y ∷ xs))

length-Permᴰ {ℓ} : {A : Type ℓ} {xs ys : List A} → Permᴰ xs ys → length xs ≡ length ys
length-Permᴰ Permᴰ.nil = refl
length-Permᴰ (Permᴰ.cons x p) = ap suc (length-Permᴰ p)
length-Permᴰ (Permᴰ.swap x y) = refl
length-Permᴰ (Permᴰ.trans p q) = length-Permᴰ p ∙ length-Permᴰ q

pub length-perm {ℓ} : {A : Type ℓ} {xs ys : List A} → Perm xs ys → length xs ≡ length ys
length-perm p = ∥∥₁_elim p (ℕ_set _ _) length-Permᴰ

module _ {ℓ} {A : Type ℓ} (junk : A) where
  unfoldable pub at : List A → ℕ → A
  at [] i = junk
  at (x ∷ xs) zero = x
  at (x ∷ xs) (suc i) = at xs i

  unfoldable pub swap : List A → ℕ → ℕ → List A
  swap xs i j = set (set xs i (at xs j)) j (at xs i)

  pub at-set :
      (xs : List A) (i j : ℕ) (v : A)
      → i < length xs
      → at (set xs i v) j ≡ (if i == j then v else at xs j)
  unfolding set at
  at-set [] i j v h = absurd (omega arith)
  at-set (x ∷ xs) zero zero v h = refl
  at-set (x ∷ xs) zero (suc j) v h = ground arith
  at-set (x ∷ xs) (suc i) zero v h = ground arith
  at-set (x ∷ xs) (suc i) (suc j) v h = ground (arith, at-set xs i j v)

  pub at-append_left : (xs ys : List A) (i : ℕ) → i < length xs → at (xs ++ ys) i ≡ at xs i
  unfolding at
  at-append_left [] ys i h = absurd (omega arith)
  at-append_left (x ∷ xs) ys zero h = refl
  at-append_left (x ∷ xs) ys (suc i) h = at-append_left xs ys i (omega arith)

  pub at-drop_last : (xs : List A) (i : ℕ) → i < length xs - 1 → at (drop_last xs) i ≡ at xs i
  unfolding at drop_last
  at-drop_last [] i h = absurd (omega arith)
  at-drop_last (x ∷ []) i h = absurd (omega arith)
  at-drop_last (x ∷ y ∷ xs) zero h = refl
  at-drop_last (x ∷ y ∷ xs) (suc i) h = at-drop_last (y ∷ xs) i (omega arith)

  -- Writing at an index trades the element there for the new one.
  traded : (xs : List A) (i : ℕ) (v : A) → i < length xs → Perm (at xs i ∷ set xs i v) (v ∷ xs)
  unfolding at set
  traded [] i v h = absurd (omega arith)
  traded (x ∷ xs) zero v h = Perm.swap v x xs
  traded (x ∷ xs) (suc i) v h =
      Perm.trans (Perm.swap x (at xs i) (set xs i v))
        (Perm.trans (Perm.cons x (traded xs i v (omega arith))) (Perm.swap v x xs))

  pub last-perm : (xs : List A) (n : ℕ) → length xs ≡ suc n → Perm (at xs n ∷ drop_last xs) xs
  unfolding at drop_last
  last-perm [] n h = absurd (omega arith)
  last-perm (x ∷ []) zero h = Perm.refl (x ∷ [])
  last-perm (x ∷ []) (suc n) h = absurd (omega arith)
  last-perm (x ∷ y ∷ xs) zero h = absurd (omega arith)
  last-perm (x ∷ y ∷ xs) (suc n) h =
      Perm.trans (Perm.swap x (at (y ∷ xs) n) (drop_last (y ∷ xs)))
        (Perm.cons x (last-perm (y ∷ xs) n (omega arith)))

  pub length-swap : (xs : List A) (i j : ℕ) → length (swap xs i j) ≡ length xs
  unfolding swap
  length-swap xs i j = length-set (set xs i (at xs j)) j (at xs i) ∙ length-set xs i (at xs j)

  module _ (xs : List A) (i j : ℕ) (hi : i < length xs) (hj : j < length xs) where
    pub at-swap :
        (c : ℕ)
        → at (swap xs i j) c ≡ (if j == c then at xs i else if i == c then at xs j else at xs c)
    unfolding swap
    at-swap c = ground (
      arith,
      at-set (set xs i (at xs j)) j c (at xs i),
      at-set xs i c (at xs j),
      length-set xs i (at xs j),
    )

    pub swap-perm : Perm (swap xs i j) xs
    unfolding swap
    swap-perm =
        let kept : at (set xs i (at xs j)) j ≡ at xs j = ground (arith, at-set xs i j (at xs j)) in
        let both = traded (set xs i (at xs j)) j (at xs i) (rw (length-set xs i (at xs j)) hj) in
        Perm.cons_inv (Perm.trans (rw kept at both) (traded xs i (at xs j) hi))
