-- ===== src/TimerHeap/Emplace.antt =====
-- emplace and cull, which may drop elements that are empty.
use cs2620_s26_psets.Base.{
  ◌++◌, length-append, ℕ, zero, suc, ◌+◌, ◌*◌, ◌%◌, ◌<◌, ◌≡◌, refl, ◌⊎◌, inl, inr, Bool, false, not,
  ◌&&◌, some, List, [], ◌∷◌, arith, leb, ◌==◌, Bool-cases, length, ◌^◌, ◌/◌, All, ◌≤◌,
}
use mathlib.Core.List.{Perm, perm_middle, append-nil}
use mathlib.Core.List.Perm
use cs2620_s26_psets.TimerHeap.Array
use cs2620_s26_psets.TimerHeap.Array.{at}
use cs2620_s26_psets.CircularInt.{modulus}
use native.Mathlib.Nat.{mod-lt}
use cs2620_s26_psets.TimerHeap.Defs.{
  Element, cull_loop, random_cull, cull, TimerHeap, emplace, append_element, expand, new_element,
}
use cs2620_s26_psets.TimerHeap.Ops.{IsEmptyElement, Culled, IsValid}
use cs2620_s26_psets.TimerHeap.Order.{IsHeap, IsSmall}
use cs2620_s26_psets.TimerHeap.Cull.{hard_cull_removes}
use cs2620_s26_psets.TimerHeap.Up.{UpInv, sift_up-Restores}

module _ {ℓ} {T : Type ℓ} (empty_type : T → Bool) (junk : Element T) where
  Culled-more :
      (x : Element T) (es r s : List (Element T))
      → IsEmptyElement empty_type junk x
      → Perm (x ∷ r) es
      → Culled empty_type junk r s
      → Culled empty_type junk es s
  Culled-more x es r s e p (gone, all, heap, q) =
      (x ∷ gone, (e, all), heap, Perm.trans (Perm.cons x q) p)

  cull_loop_lem :
      (fuel : ℕ) (es : List (Element T))
      → length es < fuel
      → IsHeap junk es
      → IsSmall es
      → (r : List (Element T)) × (cull_loop empty_type junk fuel es ≡ some r)
        × Culled empty_type junk es r
        × ((length r ≡ 0) ⊎ (empty_type (at junk r 0).value ≡ false))
  unfolding cull_loop
  cull_loop_lem zero es f heap small = absurd (omega arith)
  cull_loop_lem (suc fuel) es f heap small =
      elim (Bool-cases (not (length es == 0) && empty_type (at junk es 0).value)) [
        | inl more ↦
            let (s, e, (heap', perm)) = hard_cull_removes junk es 0 heap small (ground arith) in
            let (r, e', culled, stop) =
              cull_loop_lem fuel s (omega (arith, Array.length-perm perm)) heap'
                (omega (arith, Array.length-perm perm)) in
            rw (more, e) (r, e', Culled-more (at junk es 0) es s r (ground arith) perm culled, stop)
        | inr done ↦ rw done (es, refl, ([], tt, heap, Perm.refl es), ground arith)
      ]

  -- cull on a valid heap ends and drops only empty elements; then the heap is empty or its first
  -- element is not.
  pub cull_stops :
      (h : TimerHeap T)
      → IsValid empty_type junk h
      → (h' : TimerHeap T) × (cull empty_type junk h ≡ some h')
        × Culled empty_type junk h.es h'.es
        × ((length h'.es ≡ 0) ⊎ (empty_type (at junk h'.es 0).value ≡ false))
  unfolding cull
  cull_stops h v =
      let (r, e, culled, stop) =
        cull_loop_lem (length h.es + 1) h.es (omega arith) v.heap (omega (arith, v.small)) in
      (record h { es = r }, rw e, culled, stop)

  random_cull_lem :
      (fuel : ℕ) (es : List (Element T)) (rand : ℕ)
      → length es < fuel
      → IsHeap junk es
      → IsSmall es
      → (r : List (Element T)) × (rand' : ℕ) × (random_cull empty_type junk fuel es rand
          ≡ some (r, rand'))
        × Culled empty_type junk es r
  unfolding random_cull
  random_cull_lem zero es rand f heap small = absurd (omega arith)
  random_cull_lem (suc fuel) es rand f heap small =
      let rand' = (rand * 1664525 + 1013904223) % modulus in
      let pos = rand % length es in
      elim (Bool-cases (leb 32 (length es))) [
        | inr few ↦ rw few (es, rand, refl, ([], tt, heap, Perm.refl es))
        | inl many ↦
            let bound : 0 < length es = ground arith in
            elim (Bool-cases (empty_type (at junk es pos).value)) [
              | inr live ↦ rw (many, live) (es, rand', refl, ([], tt, heap, Perm.refl es))
              | inl dead ↦
                  let (s, e, (heap', perm)) =
                    hard_cull_removes junk es pos heap small (mod-lt rand bound) in
                  let (r, last, e', culled) =
                    random_cull_lem fuel s rand' (omega (arith, Array.length-perm perm)) heap'
                      (omega (arith, Array.length-perm perm)) in
                  rw (many, dead, e)
                    (r, last, e', Culled-more (at junk es pos) es s r dead perm culled)
            ]
      ]

  snoc-perm : (es : List (Element T)) (x : Element T) → Perm (es ++ x ∷ []) (x ∷ es)
  snoc-perm es x = rw (append-nil es) at (perm_middle {a = x} es [])

  appended-UpInv :
      (es : List (Element T)) (x : Element T)
      → IsHeap junk es
      → UpInv junk (es ++ x ∷ []) (length es)
  appended-UpInv es x heap =
      let size = length-append es (x ∷ []) in
      record {
        inside = omega (arith, size);
        edges = λ c p q ne. ground (
          arith,
          size,
          heap c,
          Array.at-append_left junk es (x ∷ []) c,
          Array.at-append_left junk es (x ∷ []) (c / 4),
        );
        bridged = λ c p q e r. absurd (omega (arith, size));
      }

  append_element_lem :
      (h : TimerHeap T) (when : ℕ) (value : T)
      → IsValid empty_type junk h
      → (h' : TimerHeap T) × (append_element junk h when value ≡ some h')
        × IsHeap junk h'.es
        × Perm h'.es (new_element h when value ∷ h.es)
        × (length h'.es ≤ h'.capacity)
  unfolding append_element expand
  append_element_lem h when value v =
      let x = new_element h when value in
      let (r, e, (heap, perm)) =
        sift_up-Restores junk (length h.es + 1) (h.es ++ x ∷ []) (length h.es) (omega arith)
          (appended-UpInv h.es x v.heap) in
      let full = Perm.trans perm (snoc-perm h.es x) in
      elim (Bool-cases (length h.es == h.capacity)) [
        | inl grow ↦
            rw (grow, e)
              (
                record (expand h) { es = r; order = (h.order + 1) % modulus },
                refl,
                heap,
                full,
                ground (arith, v.room, v.small, Array.length-perm full),
              )
        | inr fits ↦
            rw (fits, e)
              (
                record h { es = r; order = (h.order + 1) % modulus },
                refl,
                heap,
                full,
                ground (arith, v.room, Array.length-perm full),
              )
      ]

  -- emplace on a valid heap of fewer than 2^30 - 2 elements succeeds and yields a valid heap of
  -- the new element and all old ones, but for some that were empty.
  pub emplace_adds :
      (h : TimerHeap T) (when : ℕ) (value : T)
      → IsValid empty_type junk h
      → length h.es + 2 < 2 ^ 30
      → (h' : TimerHeap T) × (gone : List (Element T)) × (emplace empty_type junk h when value
          ≡ some h')
        × IsValid empty_type junk h'
        × All (IsEmptyElement empty_type junk) gone
        × Perm (gone ++ h'.es) (new_element h when value ∷ h.es)
  unfolding emplace
  emplace_adds h when value v small =
      let (es, rand, e, (gone, all, heap, perm)) =
        random_cull_lem (length h.es + 1) h.es h.cull_rand (omega arith) v.heap (omega arith) in
      let g : TimerHeap T = record h { es = es; cull_rand = rand } in
      let fewer : length gone + length es ≡ length h.es =
        omega (arith, Array.length-perm perm, length-append gone es) in
      let gv : IsValid empty_type junk g = record {
        heap = heap;
        room = omega (arith, v.room);
        small = omega arith;
      } in
      let (h', e', heap', perm', room') = append_element_lem g when value gv in
      let x = new_element h when value in
      rw e (
        h',
        gone,
        e',
        record { heap = heap'; room = room'; small = omega (arith, Array.length-perm perm') },
        all,
        Perm.trans (Perm.append_left gone perm')
            (Perm.trans (perm_middle gone es) (Perm.cons x perm)),
      )
