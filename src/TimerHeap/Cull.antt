-- ===== src/TimerHeap/Cull.antt =====
-- hard_cull of cotamer/timer_heap.hh at any position.
use cs2620_s26_psets.Base.{
  ℕ, suc, ◌-◌, ◌/◌, ◌≤◌, ◌<◌, ◌≡◌, ◌⊎◌, Option, some, List, ◌∷◌, arith, ◌==◌, if◌then◌else◌, length,
  Bool-cases, false, ◌||◌, not, inl, inr, ◌+◌, refl,
}
use mathlib.Core.List.{Perm}
use mathlib.Core.List.Perm
use cs2620_s26_psets.TimerHeap.Array
use cs2620_s26_psets.TimerHeap.Array.{at}
use cs2620_s26_psets.TimerHeap.Defs.{Element, hard_cull, before, sift_down, rise}
use cs2620_s26_psets.TimerHeap.Order.{
  IsHeap, IsSmall, Restores, key, not_before-le, heap_parent_lem, before-le,
}
use cs2620_s26_psets.TimerHeap.Down.{DownInv, sift_down-Restores}
use cs2620_s26_psets.TimerHeap.Up.{UpInv, rise-Restores}

module _ {ℓ} {T : Type ℓ} (junk : Element T) where
  -- A heap of the elements of `es` but for `x`.
  abbrev pub Without : List (Element T) → Element T → List (Element T) → Type ℓ
  Without es x r = IsHeap junk r × Perm (x ∷ r) es

  module _ (es : List (Element T)) (pos : ℕ) (heap : IsHeap junk es) (small : IsSmall es)
      (inside : pos < length es - 1) where
    -- The elements after the last one took the place of the one at `pos`.
    abbrev size : ℕ
    size = length es - 1

    shrunk : List (Element T)
    shrunk = Array.drop_last (Array.swap junk es size pos)

    length-shrunk : length shrunk ≡ size
    unfolding shrunk
    length-shrunk = omega (
      arith,
      Array.length-drop_last (Array.swap junk es size pos),
      Array.length-swap junk es size pos,
    )

    at-shrunk :
        (c : ℕ) → c < size → at junk shrunk c ≡ (if pos == c then at junk es size else at junk es c)
    unfolding shrunk
    at-shrunk c h = ground (
      arith,
      Array.at-drop_last junk (Array.swap junk es size pos) c,
      Array.length-swap junk es size pos,
      Array.at-swap junk es size pos (omega arith) (omega arith) c,
    )

    shrunk-perm : Perm (at junk es pos ∷ shrunk) es
    unfolding shrunk
    shrunk-perm =
        let last : at junk (Array.swap junk es size pos) size ≡ at junk es pos =
          ground (arith, Array.at-swap junk es size pos (omega arith) (omega arith) size) in
        let whole =
          Array.last-perm junk (Array.swap junk es size pos) size
            (omega (arith, Array.length-swap junk es size pos)) in
        Perm.trans (rw last at whole) (Array.swap-perm junk es size pos (omega arith) (omega arith))

    shrunk-DownInv :
        (pos ≡ 0) ⊎ (key junk shrunk (pos / 4) ≤ key junk shrunk pos) → DownInv junk shrunk pos
    shrunk-DownInv top = record {
      inside = rw length-shrunk inside;
      small = rw length-shrunk (omega arith);
      edges =
          λ c p q ne. ground (arith, length-shrunk, top, at-shrunk c, at-shrunk (c / 4), heap c);
      bridged = λ c p q e r.
          ground (arith, length-shrunk, at-shrunk c, at-shrunk (pos / 4), heap c, heap pos);
    }

    shrunk-UpInv : 0 < pos → key junk shrunk pos ≤ key junk shrunk (pos / 4) → UpInv junk shrunk pos
    shrunk-UpInv pp early = record {
      inside = rw length-shrunk inside;
      edges = λ c p q ne. ground (
        arith,
        length-shrunk,
        early,
        at-shrunk c,
        at-shrunk (c / 4),
        at-shrunk (pos / 4),
        at-shrunk pos,
        heap c,
        heap pos,
      );
      bridged = λ c p q e r.
          ground (arith, length-shrunk, at-shrunk c, at-shrunk (pos / 4), heap c, heap pos);
    }

    without :
        (o : Option (List (Element T)))
        → Restores junk shrunk o
        → (r : List (Element T)) × (o ≡ some r) × Without es (at junk es pos) r
    without o (r, e, (h, p)) = (r, e, (h, Perm.trans (Perm.cons (at junk es pos) p) shrunk-perm))

  drop_last-Without :
      (es : List (Element T)) (n : ℕ)
      → IsHeap junk es
      → length es ≡ suc n
      → Without es (at junk es n) (Array.drop_last es)
  drop_last-Without es n heap size = (
    (λ c p q. ground (
      arith,
      heap c,
      Array.length-drop_last es,
      Array.at-drop_last junk es c,
      Array.at-drop_last junk es (c / 4),
    )),
    Array.last-perm junk es n size,
  )

  hard_cull_next :
      (es : List (Element T)) (pos : ℕ)
      → 0 < length es
      → hard_cull junk es pos ≡ (
          let size = length es - 1 in
          let es' = Array.drop_last (Array.swap junk es size pos) in
          if pos == size
          then some (Array.drop_last es)
          else if pos == 0 || not (before (at junk es' pos) (at junk es' (pos / 4)))
          then sift_down junk (size + 1) es' pos
          else rise junk (size + 1) es' pos)
  unfolding hard_cull
  hard_cull_next es pos h =
      let some_left : (length es == 0) ≡ false = ground arith in rw (some_left, heap_parent_lem pos)

  hard_cull-inner :
      (es : List (Element T)) (pos : ℕ)
      → IsHeap junk es
      → IsSmall es
      → pos < length es - 1
      → (r : List (Element T)) × (hard_cull junk es pos ≡ some r) × Without es (at junk es pos) r
  unfolding shrunk
  hard_cull-inner es pos heap small inside =
      let es' = Array.drop_last (Array.swap junk es (length es - 1) pos) in
      let size : length es' ≡ length es - 1 = length-shrunk es pos heap small inside in
      let inner : (pos == length es - 1) ≡ false = ground arith in
      rw (hard_cull_next es pos (omega arith), inner)
        (without es pos heap small inside _
          (elim (Bool-cases (pos == 0 || not (before (at junk es' pos) (at junk es' (pos / 4))))) [
            | inl down ↦ rw down (
                sift_down-Restores junk (length es - 1 + 1) es' pos (omega arith) (
                  shrunk-DownInv es pos heap small inside
                    (ground (arith, not_before-le (at junk es' pos) (at junk es' (pos / 4))))))
            | inr up ↦
                let late : key junk es' pos ≤ key junk es' (pos / 4) =
                  ground (arith, before-le (at junk es' pos) (at junk es' (pos / 4))) in
                let above : 0 < pos = ground arith in
                rw up (
                  rise-Restores junk (length es - 1 + 1) es' pos (omega arith) above late
                    (shrunk-UpInv es pos heap small inside above late))
          ]))

  -- Removing the element at any position inside a heap of fewer than 2^30 elements succeeds and
  -- leaves a heap of exactly the other elements.
  pub hard_cull_removes :
      (es : List (Element T)) (pos : ℕ)
      → IsHeap junk es
      → IsSmall es
      → pos < length es
      → (r : List (Element T)) × (hard_cull junk es pos ≡ some r) × Without es (at junk es pos) r
  hard_cull_removes es pos heap small inside = elim (Bool-cases (pos == length es - 1)) [
    | inl last ↦
        let at_end : length es ≡ suc pos = ground arith in
        rw (hard_cull_next es pos (omega arith), last)
          (Array.drop_last es, refl, drop_last-Without es pos heap at_end)
    | inr inner ↦ hard_cull-inner es pos heap small (ground arith)
  ]
