-- ===== src/TimerHeap/Tests.antt =====
-- The theorems on timer_heap at small heaps. A value 0 is an empty one.
use cs2620_s26_psets.Base.{
  ℕ, zero, suc, ◌≤◌, ◌<◌, ◌≡◌, refl, ◌⊎◌, Bool, false, none, some, List, [], ◌∷◌, ◌++◌, arith, ◌==◌,
  ◌>>=◌, length, All, ◌↔◌,
}
use mathlib.Core.List.{Perm}
use cs2620_s26_psets.TimerHeap.Array
use cs2620_s26_psets.TimerHeap.Array.{at}
use cs2620_s26_psets.TimerHeap.Defs.{
  Element, top, emplace, TimerHeap, random_cull, cull, new, pop, hard_cull, append_element, expand,
  sift_up, sift_down, smallest_child, before, heap_parent, heap_first_child, heap_last_child,
  new_element,
}
use cs2620_s26_psets.TimerHeap.Ops.{IsValid, IsEmptyElement, Culled, empty_asserts, pop_least}
use cs2620_s26_psets.TimerHeap.Order.{IsHeap, key}
use cs2620_s26_psets.TimerHeap.Cull.{Without, hard_cull_removes}
use cs2620_s26_psets.TimerHeap.Emplace.{emplace_adds, cull_stops}

abbrev is_empty : ℕ → Bool
is_empty v = v == 0

abbrev junk : Element ℕ
junk = record { when = 77; order = 77; value = 77 }

abbrev element : ℕ → ℕ → ℕ → Element ℕ
element when order value = record { when = when; order = order; value = value }

abbrev sample : TimerHeap ℕ
sample = record {
  es = element 3 1 0 ∷ element 5 2 8 ∷ element 4 3 9 ∷ [];
  capacity = 31;
  order = 3;
  cull_rand = 8173;
}

sample-IsHeap : IsHeap junk sample.es
unfolding at
sample-IsHeap zero p q = absurd (omega arith)
sample-IsHeap (suc zero) p q = omega arith
sample-IsHeap (suc (suc zero)) p q = omega arith
sample-IsHeap (suc (suc (suc c))) p q = absurd (omega arith)

sample-IsValid : IsValid is_empty junk sample
sample-IsValid = record { heap = sample-IsHeap; room = omega arith; small = omega arith }

-- Two timers for one time leave in the order in which they came.
ties_in_order :
    (do
      a ← emplace is_empty junk new 6 10
      b ← emplace is_empty junk a 6 11
      c ← emplace is_empty junk b 2 12
      d ← pop junk c
      e ← top junk d
      some e.value)
    ≡ some 10
unfolding emplace random_cull append_element expand sift_up pop hard_cull sift_down smallest_child
    top at Array.swap Array.set Array.drop_last before heap_parent heap_first_child heap_last_child
ties_in_order = refl

pop_least_example :
    (e : Element ℕ) × (h' : TimerHeap ℕ) × (top junk sample ≡ some e)
    × (pop junk sample ≡ some h')
    × IsValid is_empty junk h'
    × Perm (e ∷ h'.es) sample.es
    × ((i : ℕ) → i < length sample.es → e.when ≤ key junk sample.es i)
pop_least_example = pop_least is_empty junk sample sample-IsValid (omega arith)

empty_asserts_example :
    ((top junk sample ≡ none) ↔ (length sample.es ≡ 0))
    × ((pop junk sample ≡ none) ↔ (length sample.es ≡ 0))
empty_asserts_example = empty_asserts is_empty junk sample sample-IsValid

cull_stops_example :
    (h' : TimerHeap ℕ) × (cull is_empty junk sample ≡ some h')
    × Culled is_empty junk sample.es h'.es
    × ((length h'.es ≡ 0) ⊎ (is_empty (at junk h'.es 0).value ≡ false))
cull_stops_example = cull_stops is_empty junk sample sample-IsValid

emplace_adds_example :
    (h' : TimerHeap ℕ) × (gone : List (Element ℕ)) × (emplace is_empty junk sample 1 5 ≡ some h')
    × IsValid is_empty junk h'
    × All (IsEmptyElement is_empty junk) gone
    × Perm (gone ++ h'.es) (new_element sample 1 5 ∷ sample.es)
emplace_adds_example = emplace_adds is_empty junk sample 1 5 sample-IsValid (omega arith)

hard_cull_removes_example :
    (r : List (Element ℕ)) × (hard_cull junk sample.es 1 ≡ some r)
    × Without junk sample.es (element 5 2 8) r
unfolding at
hard_cull_removes_example =
    hard_cull_removes junk sample.es 1 sample-IsHeap (omega arith) (omega arith)
