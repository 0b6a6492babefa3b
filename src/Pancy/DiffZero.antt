-- ===== src/Pancy/DiffZero.antt =====
-- pancydb::diff of pset3/pancydb.cc with no skew allowed.
use cs2620_s26_psets.Base.{
  ℕ, ◌^◌, ◌≤◌, ◌<◌, ◌≡◌, refl, sym, ◌↔◌, inl, inr, true, none, some, List, [], ◌∷◌, arith, ltb,
  Bool-cases, All, pos, All-map_of,
}
use cs2620_s26_psets.Pancy.Diff.{
  min_version, diff, find_recent_remove, diff_newer, back_version, removes_complete, diff_loop,
  corresponds,
}
use cs2620_s26_psets.Pancy.Db.{RecentRemove, Pancydb, Vv}
use cs2620_s26_psets.Pancy.Map.{find, Map, IsSorted, From-IsSorted, find_below}
use cs2620_s26_psets.Bytes.{Bytes, str_cmp_eq, str_cmp_refl, str_eq_iff}
use cs2620_s26_psets.Pancy.Invariant.{Inv}

sorted-All :
    (P : Bytes × Vv → Type 0) (m : Map Vv)
    → IsSorted m
    → ((k : Bytes) (v : Vv) → find k m ≡ some v → P (k, v))
    → All P m
unfolding find
sorted-All P [] s h = tt
sorted-All P ((j, w) ∷ m) s h = (
  h j w (ground (arith, str_cmp_refl j)),
  sorted-All P m (From-IsSorted j m s)
      (λ k v e. h k v (ground (arith, str_cmp_eq k j, find_below j j m s, str_cmp_refl j))),
)

find_recent_remove-none :
    (n : ℕ) (k : Bytes) (rs : List RecentRemove)
    → All (λ r. r.remove_version < n) rs
    → find_recent_remove rs k (pos n) ≡ none
unfolding find_recent_remove
find_recent_remove-none n k [] h = refl
find_recent_remove-none n k (r ∷ rs) h = ground (arith, find_recent_remove-none n k rs h.1)

back_version-lt :
    (n : ℕ) (rs : List RecentRemove)
    → 0 < n
    → All (λ r. r.remove_version < n) rs
    → back_version rs < n
unfolding back_version
back_version-lt n [] p h = p
back_version-lt n (r ∷ []) p h = h.0
back_version-lt n (r ∷ s ∷ rs) p h = back_version-lt n (s ∷ rs) p h.1

min_version-zero : (n : ℕ) → n < 2 ^ 63 → min_version n 0 ≡ pos n
unfolding min_version
min_version-zero n h = ground arith

module _ (n : ℕ) (ra rb : List RecentRemove) (a_old : All (λ r. r.remove_version < n) ra)
    (b_old : All (λ r. r.remove_version < n) rb) where
  diff_loop-eq :
      (xs ys : Map Vv)
      → All (λ e. e.1.version < n) xs
      → diff_loop ra rb (pos n) true xs ys ≡ none
      → xs ≡ ys
  unfolding diff_loop corresponds
  diff_loop-eq [] [] h e = refl
  diff_loop-eq ((k, v) ∷ xs) [] h e = ground (arith, find_recent_remove-none n k rb b_old)
  diff_loop-eq [] ((k, v) ∷ ys) h e = ground (arith, find_recent_remove-none n k ra a_old)
  diff_loop-eq ((j, v) ∷ xs) ((k, w) ∷ ys) h e = ground (
    arith,
    find_recent_remove-none n j rb b_old,
    find_recent_remove-none n k ra a_old,
    str_cmp_eq j k,
    str_eq_iff v.value w.value,
    diff_loop-eq xs ys h.1,
  )

  eq-diff_loop : (xs : Map Vv) → diff_loop ra rb (pos n) true xs xs ≡ none
  unfolding diff_loop corresponds
  eq-diff_loop [] = refl
  eq-diff_loop ((j, v) ∷ xs) =
      ground (arith, str_cmp_refl j, str_eq_iff v.value v.value, eq-diff_loop xs)

diff_newer-zero :
    (a b : Pancydb)
    → Inv a
    → Inv b
    → b.next_version ≤ a.next_version
    → a.next_version < 2 ^ 63
    → (diff_newer a b 0 ≡ none) ↔ (a.db ≡ b.db)
unfolding diff_newer removes_complete
diff_newer-zero a b ia ib h small =
    let old : All (λ (r : RecentRemove). r.remove_version < a.next_version) b.recent_removes =
      All-map_of b.recent_removes (λ r p. omega arith) ib.removes_below in
    let entries : All (λ (e : Bytes × Vv). e.1.version < a.next_version) a.db =
      sorted-All (λ e. e.1.version < a.next_version) a.db ia.sorted
        (λ k v e. (ia.versions k v e).1) in
    let complete : removes_complete a.recent_removes (pos a.next_version) ≡ true =
      ground
        (arith, back_version-lt a.next_version a.recent_removes ia.next_pos ia.removes_below) in
    rw (min_version-zero a.next_version small, complete)
      (
        diff_loop-eq a.next_version a.recent_removes b.recent_removes ia.removes_below old a.db b.db
            entries,
        λ e. rw (← e) (
            eq-diff_loop a.next_version a.recent_removes b.recent_removes ia.removes_below old
              a.db),
      )

-- For two databases that satisfy the invariant and whose counters are below 2^63, diff with skew 0
-- finds no key exactly if the two maps are equal, whichever database is newer.
pub diff_zero :
    (a b : Pancydb)
    → Inv a
    → Inv b
    → a.next_version < 2 ^ 63
    → b.next_version < 2 ^ 63
    → (diff a b 0 ≡ none) ↔ (a.db ≡ b.db)
unfolding diff
diff_zero a b ia ib sa sb = elim (Bool-cases (ltb a.next_version b.next_version)) [
  | inl e ↦
      let (l, r) = diff_newer-zero b a ib ia (ground arith) sb in
      rw e ((λ d. sym (l d)), (λ d. r (sym d)))
  | inr e ↦ rw e (diff_newer-zero a b ia ib (ground arith) sa)
]
