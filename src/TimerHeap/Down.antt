-- ===== src/TimerHeap/Down.antt =====
-- Moving an element towards the leaves: the other loop of hard_cull.
use cs2620_s26_psets.Base.{
  ℕ, zero, suc, ◌+◌, ◌/◌, ◌≤◌, ◌<◌, ◌≡◌, refl, ◌≢◌, ◌⊎◌, inl, List, arith, if◌then◌else◌, length,
  ◌==◌, ◌-◌, true, some, ap, inr, false,
}
use cs2620_s26_psets.TimerHeap.Array
use cs2620_s26_psets.TimerHeap.Array.{at}
use cs2620_s26_psets.TimerHeap.Defs.{
  Element, smallest_child, before, sift_down, heap_last_child, heap_first_child,
}
use cs2620_s26_psets.TimerHeap.Order.{
  IsSmall, key, before-le, not_before-le, Restores, heap_first_child_lem, heap_last_child_lem,
  Restores-here, Restores-perm,
}

module _ {ℓ} {T : Type ℓ} (junk : Element T) where
  -- In order but for the edges below `i`; what is below `i` is in order with what is above it.
  pub record DownInv (es : List (Element T)) (i : ℕ) : Type ℓ where
    pub inside : i < length es
    pub small : IsSmall es
    pub edges : (c : ℕ) → 0 < c → c < length es → c / 4 ≢ i → key junk es (c / 4) ≤ key junk es c
    pub bridged :
        (c : ℕ) → 0 < c → c < length es → c / 4 ≡ i → 0 < i → key junk es (i / 4) ≤ key junk es c

  -- The result is the index that the loop began with or one that it went through, and no element
  -- that it went through is due before it.
  smallest_child_lem :
      (n : ℕ) (es : List (Element T)) (t s : ℕ)
      → let r = smallest_child junk n es t s in
        ((r ≡ s) ⊎ ((t ≤ r) × (r < t + n)))
        × (key junk es r ≤ key junk es s)
        × ((c : ℕ) → t ≤ c → c < t + n → key junk es r ≤ key junk es c)
  unfolding smallest_child
  smallest_child_lem zero es t s = (inl refl, omega arith, λ c p q. absurd (omega arith))
  smallest_child_lem (suc n) es t s =
      let s' = if before (at junk es t) (at junk es s) then t else s in
      let (which, le, all) = smallest_child_lem n es (t + 1) s' in
      (
        ground arith,
        ground (arith, before-le (at junk es t) (at junk es s)),
        λ c p q. ground (arith, all c, not_before-le (at junk es t) (at junk es s)),
      )

  pick : List (Element T) → ℕ → ℕ
  pick es i =
      smallest_child junk (heap_last_child (length es) i - heap_first_child i) es
        (heap_first_child i) i

  -- The loop picks the element or one of its children, and none of those is due before it.
  pick_lem :
      (es : List (Element T)) (i : ℕ)
      → i < length es
      → IsSmall es
      → let s = pick es i in
        ((s ≡ i) ⊎ ((i < s) × (s < length es) × (s / 4 ≡ i)))
        × (key junk es s ≤ key junk es i)
        × ((c : ℕ) → 0 < c → c < length es → c / 4 ≡ i → key junk es s ≤ key junk es c)
  unfolding pick
  pick_lem es i h small =
      let first = heap_first_child_lem i (omega arith) in
      let last = heap_last_child_lem (length es) i (omega arith) in
      let (which, le, all) =
        smallest_child_lem (heap_last_child (length es) i - heap_first_child i) es
          (heap_first_child i) i in
      (ground (arith, first, last, which), le, λ c p q e. ground (arith, first, last, all c))

  sift_down_next :
      (fuel : ℕ) (es : List (Element T)) (i : ℕ)
      → sift_down junk (suc fuel) es i ≡ (
          if pick es i == i
          then some es
          else sift_down junk fuel (Array.swap junk es i (pick es i)) (pick es i))
  unfolding sift_down pick
  sift_down_next fuel es i = refl

  lower-DownInv :
      (es : List (Element T)) (i s : ℕ)
      → DownInv es i
      → (i < s) × (s < length es) × (s / 4 ≡ i)
      → key junk es s ≤ key junk es i
      → ((c : ℕ) → 0 < c → c < length es → c / 4 ≡ i → key junk es s ≤ key junk es c)
      → DownInv (Array.swap junk es i s) s
  lower-DownInv es i s inv (past, inside, child) le all =
      let swapped = Array.at-swap junk es i s inv.inside inside in
      let size = Array.length-swap junk es i s in
      record {
        inside = rw size inside;
        small = rw size inv.small;
        edges = λ c q r ne.
            ground (arith, size, swapped c, swapped (c / 4), inv.edges c, inv.bridged s, all c);
        bridged = λ c q r e pos. ground (arith, size, swapped c, swapped (s / 4), inv.edges c);
      }

  -- The loop puts everything in order; one round for each later index is enough.
  pub sift_down-Restores :
      (fuel : ℕ) (es : List (Element T)) (i : ℕ)
      → length es < fuel + i
      → DownInv es i
      → Restores junk es (sift_down junk fuel es i)
  sift_down-Restores zero es i f inv = absurd (omega (arith, inv.inside))
  sift_down-Restores (suc fuel) es i f inv =
      let (which, le, all) = pick_lem es i inv.inside inv.small in
      rw (sift_down_next fuel es i) (elim which [
        | inl same ↦
            let here : (pick es i == i) ≡ true = ground arith in
            rw here (
              Restores-here junk es
                (λ c q r. ground (arith, inv.edges c, all c, same, ap (key junk es) same)))
        | inr (past, inside, child) ↦
            let moved : (pick es i == i) ≡ false = ground arith in
            rw moved (
              Restores-perm junk es _ _ (Array.swap-perm junk es i (pick es i) inv.inside inside) (
                sift_down-Restores fuel (Array.swap junk es i (pick es i)) (pick es i)
                  (omega (arith, Array.length-swap junk es i (pick es i)))
                  (lower-DownInv es i (pick es i) inv (past, inside, child) le all)))
      ])
