-- ===== src/TimerHeap/Up.antt =====
-- Moving an element towards the root: the loop of emplace and the do-while loop of hard_cull.
use cs2620_s26_psets.Base.{
  ℕ, zero, suc, ◌/◌, ◌≤◌, ◌<◌, ◌≡◌, ◌≢◌, inl, inr, not, ◌||◌, some, List, arith, ◌==◌,
  if◌then◌else◌, Bool-cases, length, ◌&&◌,
}
use cs2620_s26_psets.TimerHeap.Array
use cs2620_s26_psets.TimerHeap.Array.{at}
use cs2620_s26_psets.TimerHeap.Defs.{Element, sift_up, before, rise}
use cs2620_s26_psets.TimerHeap.Order.{
  key, Restores, IsHeap, heap_parent_lem, Restores-here, not_before-le, before-le, Restores-perm,
}

module _ {ℓ} {T : Type ℓ} (junk : Element T) where
  -- In order but for the edge above `i`; what is below `i` is in order with what is above it.
  pub record UpInv (es : List (Element T)) (i : ℕ) : Type ℓ where
    pub inside : i < length es
    pub edges : (c : ℕ) → 0 < c → c < length es → c ≢ i → key junk es (c / 4) ≤ key junk es c
    pub bridged :
        (c : ℕ) → 0 < c → c < length es → c / 4 ≡ i → 0 < i → key junk es (i / 4) ≤ key junk es c

  raise-UpInv :
      (es : List (Element T)) (i : ℕ)
      → UpInv es i
      → 0 < i
      → key junk es i ≤ key junk es (i / 4)
      → UpInv (Array.swap junk es i (i / 4)) (i / 4)
  raise-UpInv es i inv p h =
      let inside' : i / 4 < length es = omega (arith, inv.inside) in
      let swapped = Array.at-swap junk es i (i / 4) inv.inside inside' in
      let size = Array.length-swap junk es i (i / 4) in
      record {
        inside = rw size inside';
        edges = λ c q r ne.
            ground (arith, size, swapped c, swapped (c / 4), inv.edges c, inv.bridged c);
        bridged = λ c q r e pos.
            ground (arith, size, swapped c, swapped (i / 4 / 4), inv.edges c, inv.edges (i / 4));
      }

  sift_up_next :
      (fuel : ℕ) (es : List (Element T)) (i : ℕ)
      → sift_up junk (suc fuel) es i ≡ (
          if i == 0 || not (before (at junk es i) (at junk es (i / 4)))
          then some es
          else sift_up junk fuel (Array.swap junk es i (i / 4)) (i / 4))
  unfolding sift_up
  sift_up_next fuel es i = rw (heap_parent_lem i) (ground arith)

  UpInv-root : (es : List (Element T)) → UpInv es 0 → IsHeap junk es
  UpInv-root es inv = λ c q r. inv.edges c q r (omega arith)

  UpInv-settled :
      (es : List (Element T)) (i : ℕ)
      → UpInv es i
      → key junk es (i / 4) ≤ key junk es i
      → IsHeap junk es
  UpInv-settled es i inv h = λ c q r. ground (arith, inv.edges c)

  -- The loop of emplace puts everything in order; `i + 1` rounds are enough.
  pub sift_up-Restores :
      (fuel : ℕ) (es : List (Element T)) (i : ℕ)
      → i < fuel
      → UpInv es i
      → Restores junk es (sift_up junk fuel es i)
  sift_up-Restores zero es i f inv = absurd (omega arith)
  sift_up-Restores (suc fuel) es i f inv =
      rw (sift_up_next fuel es i)
        (elim (Bool-cases (i == 0 || not (before (at junk es i) (at junk es (i / 4))))) [
          | inl stop ↦ rw stop (
              Restores-here junk es (
                ground (
                  arith,
                  UpInv-root es,
                  UpInv-settled es i inv,
                  not_before-le (at junk es i) (at junk es (i / 4)),
                )))
          | inr more ↦
              let above : 0 < i = ground arith in
              let late : key junk es i ≤ key junk es (i / 4) =
                ground (arith, before-le (at junk es i) (at junk es (i / 4))) in
              rw more (
                Restores-perm junk es _ _
                  (Array.swap-perm junk es i (i / 4) inv.inside (omega (arith, inv.inside)))
                  (sift_up-Restores fuel (Array.swap junk es i (i / 4)) (i / 4) (omega arith)
                    (raise-UpInv es i inv above late)))
        ])

  rise_next :
      (fuel : ℕ) (es : List (Element T)) (i : ℕ)
      → rise junk (suc fuel) es i ≡ (
          let es' = Array.swap junk es i (i / 4) in
          if not (i / 4 == 0) && before (at junk es' (i / 4)) (at junk es' (i / 4 / 4))
          then rise junk fuel es' (i / 4)
          else some es')
  unfolding rise
  rise_next fuel es i = rw (heap_parent_lem i, heap_parent_lem (i / 4)) (ground arith)

  -- So does the loop of hard_cull, which starts with an element that is due before its parent.
  pub rise-Restores :
      (fuel : ℕ) (es : List (Element T)) (i : ℕ)
      → i < fuel
      → 0 < i
      → key junk es i ≤ key junk es (i / 4)
      → UpInv es i
      → Restores junk es (rise junk fuel es i)
  rise-Restores zero es i f p h inv = absurd (omega arith)
  rise-Restores (suc fuel) es i f p h inv =
      let es' = Array.swap junk es i (i / 4) in
      let inv' = raise-UpInv es i inv p h in
      rw (rise_next fuel es i) (
        Restores-perm junk es es' _
          (Array.swap-perm junk es i (i / 4) inv.inside (omega (arith, inv.inside)))
          (elim (Bool-cases
            (not (i / 4 == 0) && before (at junk es' (i / 4)) (at junk es' (i / 4 / 4)))) [
              | inl more ↦ rw more (
                  rise-Restores fuel es' (i / 4) (omega arith) (ground arith)
                    (ground (arith, before-le (at junk es' (i / 4)) (at junk es' (i / 4 / 4))))
                    inv')
              | inr stop ↦ rw stop (
                  Restores-here junk es' (
                    ground (
                      arith,
                      UpInv-root es',
                      inv',
                      UpInv-settled es' (i / 4) inv',
                      not_before-le (at junk es' (i / 4)) (at junk es' (i / 4 / 4)),
                    )))
            ]))
