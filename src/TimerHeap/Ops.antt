-- ===== src/TimerHeap/Ops.antt =====
-- The public operations: emplace, pop, top and cull.
use cs2620_s26_psets.Base.{
  inl, inr, Bool-cases, ◌↔◌, ℕ, ◌+◌, ◌^◌, ◌≤◌, ◌<◌, ◌≡◌, Bool, true, false, none, some, List, ◌∷◌,
  ◌++◌, arith, ◌==◌, length, All,
}
use mathlib.Core.List.{Perm}
use cs2620_s26_psets.TimerHeap.Array
use cs2620_s26_psets.TimerHeap.Array.{at}
use cs2620_s26_psets.TimerHeap.Defs.{Element, TimerHeap, top, pop, hard_cull}
use cs2620_s26_psets.TimerHeap.Order.{IsHeap, key, top_least}
use cs2620_s26_psets.TimerHeap.Cull.{hard_cull_removes}

module _ {ℓ} {T : Type ℓ} (empty_type : T → Bool) (junk : Element T) where
  abbrev pub IsEmptyElement : Element T → Type 0
  IsEmptyElement e = empty_type e.value ≡ true

  -- A heap that a client can hold: in order, within its block, and small enough to grow.
  pub record IsValid (h : TimerHeap T) : Type ℓ where
    pub heap : IsHeap junk h.es
    pub room : length h.es ≤ h.capacity
    pub small : length h.es + 1 < 2 ^ 30

  -- `r` holds the elements of `es` but for some that are empty.
  abbrev pub Culled : List (Element T) → List (Element T) → Type ℓ
  Culled es r =
      (gone : List (Element T)) × All IsEmptyElement gone × IsHeap junk r × Perm (gone ++ r) es

  -- On a valid heap that is not empty, pop takes away the element that top shows, which is due no
  -- later than any other, and leaves a valid heap of exactly the others.
  pub pop_least :
      (h : TimerHeap T)
      → IsValid h
      → 0 < length h.es
      → (e : Element T) × (h' : TimerHeap T) × (top junk h ≡ some e)
        × (pop junk h ≡ some h')
        × IsValid h'
        × Perm (e ∷ h'.es) h.es
        × ((i : ℕ) → i < length h.es → e.when ≤ key junk h.es i)
  unfolding top pop
  pop_least h v p =
      let some_left : (length h.es == 0) ≡ false = ground arith in
      let (r, e, (heap, perm)) = hard_cull_removes junk h.es 0 v.heap (omega (arith, v.small)) p in
      (
        at junk h.es 0,
        record h { es = r },
        rw some_left,
        rw e,
        record {
          heap = heap;
          room = omega (arith, v.room, Array.length-perm perm);
          small = omega (arith, v.small, Array.length-perm perm);
        },
        perm,
        λ i q. top_least junk h.es i v.heap q,
      )

  empty_fails : (h : TimerHeap T) → length h.es ≡ 0 → (top junk h ≡ none) × (pop junk h ≡ none)
  unfolding top pop hard_cull
  empty_fails h e = ground arith

  -- On a valid heap, top and pop give no result, as where an assertion fails, exactly if the heap
  -- is empty.
  pub empty_asserts :
      (h : TimerHeap T)
      → IsValid h
      → ((top junk h ≡ none) ↔ (length h.es ≡ 0)) × ((pop junk h ≡ none) ↔ (length h.es ≡ 0))
  empty_asserts h v = elim (Bool-cases (length h.es == 0)) [
    | inl e ↦
        let zero_long : length h.es ≡ 0 = ground (arith, e) in
        (
          ((λ _. zero_long), (λ _. (empty_fails h zero_long).0)),
          ((λ _. zero_long), (λ _. (empty_fails h zero_long).1)),
        )
    | inr e ↦
        let (x, h', at_top, popped, valid, perm, least) = pop_least h v (ground (arith, e)) in
        (
          ((λ f. absurd (cc (f, at_top))), (λ f. (absurd (ground (arith, e, f))))),
          ((λ f. absurd (cc (f, popped))), (λ f. (absurd (ground (arith, e, f))))),
        )
  ]
