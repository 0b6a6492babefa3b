-- ===== src/Pancy/Map.antt =====
-- `std::map<std::string, V>`, as pancydb uses it: a list of entries in ascending order of the keys.
-- `find`, `emplace`, `erase` and writes through an iterator; iteration walks the list.
use Prim.Native.Nat.{Ordering}
use cs2620_s26_psets.Base.{
  ◌≡◌, refl, ◌≢◌, List, [], ◌∷◌, Option, none, some, arith, Bool, true, false, if◌then◌else◌,
}
use cs2620_s26_psets.Bytes.{
  Bytes, str_cmp, str_cmp_refl, str_cmp_eq, str_cmp_gt, str_cmp_lt, str_cmp_trans,
}

abbrev pub Map {ℓ} : Type ℓ → Type ℓ
Map V = List (Bytes × V)

abbrev pub is_eq : Ordering → Bool
is_eq Ordering.eq = true
is_eq Ordering.lt = false
is_eq Ordering.gt = false

module _ {ℓ} {V : Type ℓ} where
  unfoldable pub find : Bytes → Map V → Option V
  find k [] = none
  find k ((j, w) ∷ m) = elim (str_cmp k j) [
    | Ordering.eq ↦ some w
    | Ordering.lt ↦ find k m
    | Ordering.gt ↦ find k m
  ]

  -- The map after `emplace`: an entry that is there stays.
  unfoldable pub emplace : Bytes → V → Map V → Map V
  emplace k v [] = (k, v) ∷ []
  emplace k v ((j, w) ∷ m) = elim (str_cmp k j) [
    | Ordering.lt ↦ (k, v) ∷ (j, w) ∷ m
    | Ordering.eq ↦ (j, w) ∷ m
    | Ordering.gt ↦ (j, w) ∷ emplace k v m
  ]

  -- `it->second = v`, for the iterator that `find` gives.
  unfoldable pub assign : Bytes → V → Map V → Map V
  assign k v [] = []
  assign k v ((j, w) ∷ m) = elim (str_cmp k j) [
    | Ordering.eq ↦ (j, v) ∷ m
    | Ordering.lt ↦ (j, w) ∷ assign k v m
    | Ordering.gt ↦ (j, w) ∷ assign k v m
  ]

  unfoldable pub erase : Bytes → Map V → Map V
  erase k [] = []
  erase k ((j, w) ∷ m) = elim (str_cmp k j) [
    | Ordering.eq ↦ m
    | Ordering.lt ↦ (j, w) ∷ erase k m
    | Ordering.gt ↦ (j, w) ∷ erase k m
  ]

  -- The keys ascend, and the first one comes after `k`.
  abbrev pub From : Bytes → Map V → Type 0
  From k [] = Unit {0}
  From k ((j, w) ∷ m) = (str_cmp k j ≡ Ordering.lt) × From j m

  abbrev pub IsSorted : Map V → Type 0
  IsSorted [] = Unit {0}
  IsSorted ((j, w) ∷ m) = From j m

  pub From-mono : (i k : Bytes) (m : Map V) → str_cmp i k ≡ Ordering.lt → From k m → From i m
  From-mono i k [] p h = tt
  From-mono i k ((j, w) ∷ m) p h = (str_cmp_trans i k j p h.0, h.1)

  pub From-IsSorted : (k : Bytes) (m : Map V) → From k m → IsSorted m
  From-IsSorted k [] h = tt
  From-IsSorted k ((j, w) ∷ m) h = h.1

  -- A key that does not come after the bound of an ascending map is not in it.
  pub find_below :
      (i k : Bytes) (m : Map V) → From k m → str_cmp k i ≢ Ordering.lt → find i m ≡ none
  unfolding find
  find_below i k [] h p = refl
  find_below i k ((j, w) ∷ m) h p = ground (
    arith,
    find_below i j m h.1,
    str_cmp_eq i j,
    str_cmp_lt j i,
    str_cmp_gt i j,
    str_cmp_lt i j,
    str_cmp_gt k i,
    str_cmp_trans k j i,
    str_cmp_refl j,
  )

  pub find-emplace :
      (k j : Bytes) (v : V) (m : Map V)
      → find k m ≡ none
      → find j (emplace k v m) ≡ (if is_eq (str_cmp j k) then some v else find j m)
  unfolding find emplace
  find-emplace k j v [] h = ground arith
  find-emplace k j v ((i, w) ∷ m) h =
      ground (arith, find-emplace k j v m, str_cmp_eq k i, str_cmp_eq j k, str_cmp_eq j i)

  -- `emplace` leaves an entry that is there.
  pub emplace_present :
      (k : Bytes) (v : V) (m : Map V) → IsSorted m → find k m ≢ none → emplace k v m ≡ m
  unfolding find emplace
  emplace_present k v [] s h = absurd (h refl)
  emplace_present k v ((i, w) ∷ m) s h = ground (
    arith,
    emplace_present k v m (From-IsSorted i m s),
    str_cmp_eq k i,
    find_below k i m s,
    str_cmp_lt k i,
  )

  pub find-assign :
      (k j : Bytes) (v : V) (m : Map V)
      → find k m ≢ none
      → find j (assign k v m) ≡ (if is_eq (str_cmp j k) then some v else find j m)
  unfolding find assign
  find-assign k j v [] h = absurd (h refl)
  find-assign k j v ((i, w) ∷ m) h =
      ground
        (arith, find-assign k j v m, str_cmp_eq k i, str_cmp_eq j k, str_cmp_eq j i, str_cmp_refl i)

  pub find-erase :
      (k j : Bytes) (m : Map V)
      → IsSorted m
      → find j (erase k m) ≡ (if is_eq (str_cmp j k) then none else find j m)
  unfolding find erase
  find-erase k j [] s = ground arith
  find-erase k j ((i, w) ∷ m) s = ground (
    arith,
    find-erase k j m (From-IsSorted i m s),
    str_cmp_eq k i,
    str_cmp_eq j k,
    str_cmp_eq j i,
    str_cmp_refl i,
    find_below i i m s,
  )

  pub emplace-From :
      (b k : Bytes) (v : V) (m : Map V)
      → str_cmp b k ≡ Ordering.lt
      → From b m
      → From b (emplace k v m)
  unfolding emplace
  emplace-From b k v [] p h = (p, tt)
  emplace-From b k v ((j, w) ∷ m) p h = ground (arith, emplace-From j k v m, str_cmp_gt k j)

  pub assign-From : (b k : Bytes) (v : V) (m : Map V) → From b m → From b (assign k v m)
  unfolding assign
  assign-From b k v [] h = tt
  assign-From b k v ((j, w) ∷ m) h = ground (arith, assign-From j k v m)

  pub erase-From : (b k : Bytes) (m : Map V) → From b m → From b (erase k m)
  unfolding erase
  erase-From b k [] h = tt
  erase-From b k ((j, w) ∷ m) h = ground (arith, erase-From j k m h.1, From-mono b j m h.0 h.1)

  pub emplace-IsSorted : (k : Bytes) (v : V) (m : Map V) → IsSorted m → IsSorted (emplace k v m)
  unfolding emplace
  emplace-IsSorted k v [] h = tt
  emplace-IsSorted k v ((j, w) ∷ m) h = ground (arith, emplace-From j k v m, str_cmp_gt k j)

  pub assign-IsSorted : (k : Bytes) (v : V) (m : Map V) → IsSorted m → IsSorted (assign k v m)
  unfolding assign
  assign-IsSorted k v [] h = tt
  assign-IsSorted k v ((j, w) ∷ m) h = ground (arith, assign-From j k v m h)

  pub erase-IsSorted : (k : Bytes) (m : Map V) → IsSorted m → IsSorted (erase k m)
  unfolding erase
  erase-IsSorted k [] h = tt
  erase-IsSorted k ((j, w) ∷ m) h = ground (arith, erase-From j k m h, From-IsSorted j m h)
