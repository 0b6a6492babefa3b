-- ===== src/TimerHeap/Order.antt =====
-- The heap order on the times, and what the comparison of elements says of them.
use cs2620_s26_psets.Base.{
  ℕ, zero, suc, ◌+◌, ◌-◌, ◌*◌, ◌/◌, ◌^◌, ◌≤◌, ◌<◌, ◌≡◌, true, false, List, arith, ltb, ◌==◌,
  if◌then◌else◌, length, some, Option, refl,
}
use cs2620_s26_psets.TimerHeap.Array.{at}
use mathlib.Core.List.{Perm}
use mathlib.Core.List.Perm
use cs2620_s26_psets.TimerHeap.Defs.{
  heap_parent, heap_first_child, Element, before, heap_last_child,
}

module _ {ℓ} {T : Type ℓ} where
  pub before-le : (x y : Element T) → before x y ≡ true → x.when ≤ y.when
  unfolding before
  before-le x y h = ground arith

  pub not_before-le : (x y : Element T) → before x y ≡ false → y.when ≤ x.when
  unfolding before
  not_before-le x y h = ground arith

pub heap_parent_lem : (i : ℕ) → heap_parent i ≡ i / 4
unfolding heap_parent
heap_parent_lem i = ground arith

-- Below 2 ^ 30 elements no index of a child wraps.
abbrev pub IsSmall {ℓ} : {A : Type ℓ} → List A → Type 0
IsSmall xs = length xs < 2 ^ 30

pub heap_first_child_lem : (i : ℕ) → i < 2 ^ 30 → heap_first_child i ≡ (if i == 0 then 1 else 4 * i)
unfolding heap_first_child
heap_first_child_lem i h = ground arith

pub heap_last_child_lem :
    (size i : ℕ)
    → i < 2 ^ 30 - 1
    → heap_last_child size i ≡ (if ltb (4 * i + 4) size then 4 * i + 4 else size)
unfolding heap_last_child
heap_last_child_lem size i h = ground arith

module _ {ℓ} {T : Type ℓ} (junk : Element T) where
  abbrev pub key : List (Element T) → ℕ → ℕ
  key es i = (at junk es i).when

  -- No element is due before its parent.
  abbrev pub IsHeap : List (Element T) → Type 0
  IsHeap es = (c : ℕ) → 0 < c → c < length es → key es (c / 4) ≤ key es c

  -- The elements of `es`, in heap order.
  abbrev pub Heaped : List (Element T) → List (Element T) → Type ℓ
  Heaped es r = IsHeap r × Perm r es

  least_below :
      (n : ℕ) (es : List (Element T)) (i : ℕ)
      → IsHeap es
      → i < n
      → i < length es
      → key es 0 ≤ key es i
  least_below zero es i h f p = absurd (omega arith)
  least_below (suc n) es zero h f p = omega arith
  least_below (suc n) es (suc i) h f p =
      omega (arith, h (suc i), least_below n es (suc i / 4) h (omega arith) (omega arith))

  -- The first element of a heap is due no later than any other.
  pub top_least : (es : List (Element T)) (i : ℕ) → IsHeap es → i < length es → key es 0 ≤ key es i
  top_least es i h p = least_below (suc i) es i h (omega arith) p

  -- The run ends well, with the elements of `es` in heap order.
  abbrev pub Restores : List (Element T) → Option (List (Element T)) → Type ℓ
  Restores es o = (r : List (Element T)) × (o ≡ some r) × Heaped es r

  pub Restores-here : (es : List (Element T)) → IsHeap es → Restores es (some es)
  Restores-here es h = (es, refl, (h, Perm.refl es))

  pub Restores-perm :
      (es es' : List (Element T)) (o : Option (List (Element T)))
      → Perm es' es
      → Restores es' o
      → Restores es o
  Restores-perm es es' o p (r, e, (h, q)) = (r, e, (h, Perm.trans q p))

  pub Restores-eq :
      (es : List (Element T)) (o o' : Option (List (Element T)))
      → o ≡ o'
      → Restores es o'
      → Restores es o
  Restores-eq es o o' e h = rw e h
