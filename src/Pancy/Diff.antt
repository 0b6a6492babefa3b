-- ===== src/Pancy/Diff.antt =====
-- pancydb::find_recent_remove and pancydb::diff of pset3/pancydb.cc. An iterator is the rest of the
-- list of entries. Versions are below 2 ^ 63, so a version is itself as an int64_t.
use Prim.Native.Nat.{Ordering}
use cs2620_s26_psets.Base.{
  ℕ, ◌+◌, ◌-◌, ◌%◌, ◌^◌, Bool, true, false, not, ◌&&◌, ◌||◌, Option, none, some, List, [], ◌∷◌, ltb,
  ◌==◌, if◌then◌else◌, length, ℤ, pos, leb_ℤ, negsuc, ltb_ℤ,
}
use cs2620_s26_psets.Pancy.Db.{RecentRemove, Pancydb, Vv, max_recent_removes}
use cs2620_s26_psets.Pancy.Map.{Map}
use cs2620_s26_psets.Bytes.{Bytes, str_cmp, str_eq}

-- The integer that a 64-bit pattern stands for.
abbrev pub signed64 : ℕ → ℤ
signed64 w = if ltb w (2 ^ 63) then pos w else negsuc (2 ^ 64 - w - 1)

-- `version_type min_version = next_version_ - version_skew`: size_t arithmetic, then a conversion.
unfoldable pub min_version : ℕ → ℕ → ℤ
min_version next skew = signed64 ((next + 2 ^ 64 - skew) % 2 ^ 64)

unfoldable pub find_recent_remove : List RecentRemove → Bytes → ℤ → Option Vv
find_recent_remove [] key min = none
find_recent_remove (rr ∷ rs) key min =
    if str_eq rr.key key && leb_ℤ min (pos rr.remove_version)
    then some rr.vv
    else find_recent_remove rs key min

-- `recent_removes_.back().remove_version`; the deque is not empty where it is read.
unfoldable pub back_version : List RecentRemove → ℕ
back_version [] = 0
back_version (rr ∷ []) = rr.remove_version
back_version (rr ∷ ss ∷ rs) = back_version (ss ∷ rs)

unfoldable pub removes_complete : List RecentRemove → ℤ → Bool
removes_complete rs min = ltb (length rs) max_recent_removes || leb_ℤ (pos (back_version rs)) min

abbrev pub is_none {ℓ} : {A : Type ℓ} → Option A → Bool
is_none none = true
is_none (some a) = false

-- The chain of tests on the two versions of one key; the last two are read where both exist.
unfoldable pub corresponds : Option Vv → Option Vv → ℤ → Bool → Bool
corresponds none none min complete = not complete
corresponds none (some b) min complete = not complete
corresponds (some a) none min complete = leb_ℤ min (pos a.version)
corresponds (some a) (some b) min complete = not (
    ltb a.version b.version
    || (ltb b.version a.version && ltb_ℤ (pos a.version) min)
    || (a.version == b.version && not (str_eq a.value b.value)))

-- The loop, over what is left of the two maps.
unfoldable pub diff_loop :
    List RecentRemove → List RecentRemove → ℤ → Bool → Map Vv → Map Vv → Option Bytes
diff_loop ra rb min complete [] [] = none
diff_loop ra rb min complete ((k, v) ∷ xs) [] =
    elim (corresponds (some v) (find_recent_remove rb k min) min complete) [
      | true ↦ diff_loop ra rb min complete xs []
      | false ↦ some k
    ]
diff_loop ra rb min complete [] ((k, v) ∷ ys) =
    elim (corresponds (find_recent_remove ra k min) (some v) min complete) [
      | true ↦ diff_loop ra rb min complete [] ys
      | false ↦ some k
    ]
diff_loop ra rb min complete ((j, v) ∷ xs) ((k, w) ∷ ys) = elim (str_cmp j k) [
  | Ordering.lt ↦ elim (corresponds (some v) (find_recent_remove rb j min) min complete) [
    | true ↦ diff_loop ra rb min complete xs ((k, w) ∷ ys)
    | false ↦ some j
  ]
  | Ordering.eq ↦ elim (corresponds (some v) (some w) min complete) [
    | true ↦ diff_loop ra rb min complete xs ys
    | false ↦ some j
  ]
  | Ordering.gt ↦ elim (corresponds (find_recent_remove ra k min) (some w) min complete) [
    | true ↦ diff_loop ra rb min complete ((j, v) ∷ xs) ys
    | false ↦ some k
  ]
]

-- The body, where `a` is not older than `b`.
unfoldable pub diff_newer : Pancydb → Pancydb → ℕ → Option Bytes
diff_newer a b skew =
    let min = min_version a.next_version skew in
    diff_loop a.recent_removes b.recent_removes min (removes_complete a.recent_removes min) a.db
      b.db

-- The recursive call, on the databases exchanged, finds its own test false.
unfoldable pub diff : Pancydb → Pancydb → ℕ → Option Bytes
diff a b skew =
    if ltb a.next_version b.next_version then diff_newer b a skew else diff_newer a b skew
