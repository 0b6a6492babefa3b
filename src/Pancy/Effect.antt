-- ===== src/Pancy/Effect.antt =====
-- What the operations of pancydb do to its state, in one description for each kind of change.
use cs2620_s26_psets.Base.{
  ℕ, suc, ◌+◌, ◌<◌, ◌≡◌, ◌∷◌, none, some, arith, if◌then◌else◌, length, All-map_of,
}
use cs2620_s26_psets.Bytes.{Bytes, str_cmp, str_cmp_refl, str_cmp_eq}
use cs2620_s26_psets.Pancy.Map.{
  IsSorted, find, emplace, assign, erase, is_eq, find-emplace, find-assign, find-erase,
  emplace-IsSorted, assign-IsSorted, erase-IsSorted,
}
use cs2620_s26_psets.Pancy.Msgs.{RemoveRequest}
use cs2620_s26_psets.Pancy.Db.{
  Vv, absent_vv, Pancydb, do_remove, install, find_vvptr, process_remove, deref, version, mod_ok,
  entry, fails_match, mod_no_match,
}
use cs2620_s26_psets.Pancy.Recent.{newest, length-newest, newest-All, trim_removes_lem}
use cs2620_s26_psets.Pancy.Invariant.{Inv}

-- The database after a value is stored at a key, and after an entry is removed.
unfoldable pub stored : Pancydb → Bytes → Bytes → Pancydb
stored d k value =
    let vv : Vv = record { value = value; version = d.next_version } in
    record d {
      next_version = d.next_version + 1;
      db = elim (find k d.db) [ none ↦ emplace k vv d.db | some _ ↦ assign k vv d.db ];
    }

unfoldable pub removed : Pancydb → Bytes → Vv → Pancydb
removed d k vv = record d {
  next_version = d.next_version + 1;
  db = erase k d.db;
  recent_removes =
      newest (record { key = k; vv = vv; remove_version = d.next_version } ∷ d.recent_removes);
}

pub do_remove_lem : (d : Pancydb) (k : Bytes) (v : Vv) → do_remove d k v ≡ removed d k v
unfolding do_remove removed
do_remove_lem d k v = ground (
  arith,
  trim_removes_lem (suc (length d.recent_removes))
      (record { key = k; vv = v; remove_version = d.next_version } ∷ d.recent_removes),
)

pub find-stored :
    (d : Pancydb) (k j : Bytes) (value : Bytes)
    → find j (stored d k value).db ≡ (
        if is_eq (str_cmp j k)
        then some (record { value = value; version = d.next_version })
        else find j d.db)
unfolding stored
find-stored d k j value = ground (
  arith,
  find-emplace k j (record { value = value; version = d.next_version }) d.db,
  find-assign k j (record { value = value; version = d.next_version }) d.db,
)

pub find-removed :
    (d : Pancydb) (k j : Bytes) (v : Vv)
    → IsSorted d.db
    → find j (removed d k v).db ≡ (if is_eq (str_cmp j k) then none else find j d.db)
unfolding removed
find-removed d k j v s = find-erase k j d.db s

-- What `install` does at the pointer that `find_vvptr` gives.
pub install_lem :
    (d : Pancydb) (serial : ℕ) (k value : Bytes)
    → Inv d
    → install d serial k value (find_vvptr d k) ≡ (
      stored d k value,
      mod_ok serial (version d k) (record { value = value; version = d.next_version }),
    )
unfolding install find_vvptr version mod_ok stored
install_lem d serial k value inv =
    ground (
      arith,
      find-stored d k k value,
      str_cmp_refl k,
      inv.versions k (deref d (entry k)),
      inv.shared,
    )

pub stored-Inv : (d : Pancydb) (k value : Bytes) → Inv d → Inv (stored d k value)
unfolding stored
stored-Inv d k value inv = record {
  sorted = ground (
    arith,
    emplace-IsSorted k (record { value = value; version = d.next_version }) d.db inv.sorted,
    assign-IsSorted k (record { value = value; version = d.next_version }) d.db inv.sorted,
  );
  next_pos = omega arith;
  versions = λ j v e. ground (arith, find-stored d k j value, inv.versions j v, inv.next_pos);
  distinct = λ i j v w e f g. ground (
    arith,
    find-stored d k i value,
    find-stored d k j value,
    inv.versions i v,
    inv.versions j w,
    inv.distinct i j v w,
    str_cmp_eq i k,
    str_cmp_eq j k,
  );
  shared = inv.shared;
  removes_bounded = inv.removes_bounded;
  removes_below = All-map_of d.recent_removes (λ r h. omega arith) inv.removes_below;
}

pub removed-Inv : (d : Pancydb) (k : Bytes) (v : Vv) → Inv d → Inv (removed d k v)
unfolding removed
removed-Inv d k v inv = record {
  sorted = erase-IsSorted k d.db inv.sorted;
  next_pos = omega arith;
  versions = λ j w e. ground (arith, find-removed d k j v inv.sorted, inv.versions j w);
  distinct = λ i j u w e f g. ground (
    arith,
    find-removed d k i v inv.sorted,
    find-removed d k j v inv.sorted,
    inv.distinct i j u w,
  );
  shared = inv.shared;
  removes_bounded = length-newest _;
  removes_below =
      newest-All (λ r. r.remove_version < d.next_version + 1)
        (record { key = k; vv = v; remove_version = d.next_version } ∷ d.recent_removes)
        (omega arith, All-map_of d.recent_removes (λ r h. omega arith) inv.removes_below);
}

pub process_remove_lem :
    (d : Pancydb) (r : RemoveRequest) (v : Vv)
    → find r.key d.db ≡ some v
    → Inv d
    → process_remove d r ≡ (
        if fails_match r.version_match v.version
        then (d, mod_no_match r.serial v)
        else (removed d r.key v, mod_ok r.serial v.version absent_vv))
unfolding process_remove removed
process_remove_lem d r v e inv =
    rw (e, process_remove) (ground (arith, do_remove_lem d r.key v, inv.shared))
