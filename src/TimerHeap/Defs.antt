-- ===== src/TimerHeap/Defs.antt =====
-- The state of timer_heap<T> and its operations, for arity 4. Times are numbers; indices, the size
-- and the counters are 32-bit, and their arithmetic wraps. `none` stands for a loop that has used up
-- its fuel, or for a failed assertion.
use cs2620_s26_psets.Base.{
  ◌>>=◌, ℕ, zero, suc, ◌+◌, ◌-◌, ◌*◌, ◌/◌, ◌%◌, Bool, true, false, not, ◌&&◌, ◌||◌, Option, none,
  some, List, [], ◌∷◌, ◌++◌, ltb, leb, ◌==◌, if◌then◌else◌, length,
}
use Prim.Native.Nat.{Ordering}
use cs2620_s26_psets.CircularInt
use cs2620_s26_psets.CircularInt.{modulus}
use cs2620_s26_psets.TimerHeap.Array
use cs2620_s26_psets.TimerHeap.Array.{at}

pub record Element {ℓ} (T : Type ℓ) : Type ℓ where
  pub when : ℕ
  pub order : ℕ
  pub value : T

pub record TimerHeap {ℓ} (T : Type ℓ) : Type ℓ where
  pub es : List (Element T)
  pub capacity : ℕ
  pub order : ℕ
  pub cull_rand : ℕ

abbrev pub arity : ℕ
arity = 4

abbrev pub new {ℓ} : {T : Type ℓ} → TimerHeap T
new = record { es = []; capacity = 0; order = 0; cull_rand = 8173 }

-- The element that emplace makes of its arguments.
abbrev pub new_element {ℓ} : {T : Type ℓ} → TimerHeap T → ℕ → T → Element T
new_element h when value = record { when = when; order = (h.order + 1) % modulus; value = value }

abbrev is_lt : Ordering → Bool
is_lt Ordering.lt = true
is_lt Ordering.eq = false
is_lt Ordering.gt = false

-- `element::operator<`.
unfoldable pub before {ℓ} : {T : Type ℓ} → Element T → Element T → Bool
unfolding CircularInt.order
before x y = ltb x.when y.when || (x.when == y.when && is_lt (CircularInt.order x.order y.order))

unfoldable pub heap_parent : ℕ → ℕ
heap_parent i = (i - (if arity == 2 then 1 else 0)) / arity

unfoldable pub heap_first_child : ℕ → ℕ
heap_first_child i = (i * arity + (if arity == 2 || i == 0 then 1 else 0)) % modulus

unfoldable pub heap_last_child : ℕ → ℕ → ℕ
heap_last_child size i =
    let p = (i * arity + arity + (if arity == 2 then 1 else 0)) % modulus in
    if ltb p size then p else size

module _ {ℓ} {T : Type ℓ} where
  pub empty : TimerHeap T → Bool
  empty h = length h.es == 0

  -- The new capacity of `expand`, which moves the elements to a larger block.
  unfoldable pub expand : TimerHeap T → TimerHeap T
  expand h = record h { capacity = if h.capacity == 0 then 31 else (h.capacity * 4 + 3) % modulus }

  unfoldable pub clear : TimerHeap T → TimerHeap T
  clear h = record h { es = [] }

module _ {ℓ} {T : Type ℓ} (junk : Element T) where
  -- `while (pos != 0) { … }` of emplace.
  unfoldable pub sift_up : ℕ → List (Element T) → ℕ → Option (List (Element T))
  sift_up zero es pos = none
  sift_up (suc fuel) es pos =
      let p = heap_parent pos in
      let rest = sift_up fuel (Array.swap junk es pos p) p in
      let step = if not (before (at junk es pos) (at junk es p)) then some es else rest in
      if pos == 0 then some es else step

  -- The loop `do { … } while (pos && es_[pos] < es_[heap_parent(pos)])` of hard_cull.
  unfoldable pub rise : ℕ → List (Element T) → ℕ → Option (List (Element T))
  rise zero es pos = none
  rise (suc fuel) es pos =
      let p = heap_parent pos in
      let es' = Array.swap junk es pos p in
      let rest = rise fuel es' p in
      if not (p == 0) && before (at junk es' p) (at junk es' (heap_parent p))
      then rest
      else some es'

  -- `for (t = …; t < heap_last_child(pos); ++t)`, with the rounds that are left.
  unfoldable pub smallest_child : ℕ → List (Element T) → ℕ → ℕ → ℕ
  smallest_child zero es t smallest = smallest
  smallest_child (suc rounds) es t smallest =
      smallest_child rounds es (t + 1)
        (if before (at junk es t) (at junk es smallest) then t else smallest)

  -- `while (true) { … }` of hard_cull.
  unfoldable pub sift_down : ℕ → List (Element T) → ℕ → Option (List (Element T))
  sift_down zero es pos = none
  sift_down (suc fuel) es pos =
      let first = heap_first_child pos in
      let smallest = smallest_child (heap_last_child (length es) pos - first) es first pos in
      let rest = sift_down fuel (Array.swap junk es pos smallest) smallest in
      if smallest == pos then some es else rest

  -- What hard_cull does to the elements. An empty heap fails its assertion.
  unfoldable pub hard_cull : List (Element T) → ℕ → Option (List (Element T))
  hard_cull es pos =
      let size = length es - 1 in
      let es' = Array.drop_last (Array.swap junk es size pos) in
      if length es == 0
      then none
      else if pos == size
      then some (Array.drop_last es)
      else if pos == 0 || not (before (at junk es' pos) (at junk es' (heap_parent pos)))
      then sift_down (size + 1) es' pos
      else rise (size + 1) es' pos

  unfoldable pub pop : TimerHeap T → Option (TimerHeap T)
  pop h = do es ← hard_cull h.es 0; some (record h { es = es })

  unfoldable pub top : TimerHeap T → Option (Element T)
  top h = if length h.es == 0 then none else some (at junk h.es 0)

  -- The rest of emplace: append the element and move it to its place.
  unfoldable pub append_element : TimerHeap T → ℕ → T → Option (TimerHeap T)
  append_element h when value =
      let pos = length h.es in
      let h' = if pos == h.capacity then expand h else h in
      let element = new_element h' when value in
      let es = h'.es ++ element ∷ [] in
      sift_up (pos + 1) es pos >>= λ es'. some (record h' { es = es'; order = element.order })

module _ {ℓ} {T : Type ℓ} (empty_type : T → Bool) (junk : Element T) where
  -- `cull`: drop empty elements from the top.
  unfoldable pub cull_loop : ℕ → List (Element T) → Option (List (Element T))
  cull_loop zero es = none
  cull_loop (suc fuel) es =
      let rest = hard_cull junk es 0 >>= λ es'. cull_loop fuel es' in
      if not (length es == 0) && empty_type (at junk es 0).value then rest else some es

  unfoldable pub cull : TimerHeap T → Option (TimerHeap T)
  cull h = do es ← cull_loop (length h.es + 1) h.es; some (record h { es = es })

  -- The loop at the start of emplace, which removes elements that are found empty at random places.
  unfoldable pub random_cull : ℕ → List (Element T) → ℕ → Option (List (Element T) × ℕ)
  random_cull zero es rand = none
  random_cull (suc fuel) es rand =
      let pos = rand % length es in
      let rand' = (rand * 1664525 + 1013904223) % modulus in
      let rest = hard_cull junk es pos >>= λ es'. random_cull fuel es' rand' in
      let step = if not (empty_type (at junk es pos).value) then some (es, rand') else rest in
      if leb 32 (length es) then step else some (es, rand)

  unfoldable pub emplace : TimerHeap T → ℕ → T → Option (TimerHeap T)
  emplace h when value = random_cull (length h.es + 1) h.es h.cull_rand >>= λ (es, rand).
      append_element junk (record h { es = es; cull_rand = rand }) when value
