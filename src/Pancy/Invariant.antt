-- ===== src/Pancy/Invariant.antt =====
-- What holds of a pancydb at all times.
use cs2620_s26_psets.Base.{◌≤◌, ◌<◌, ◌≡◌, refl, some, arith, length, All}
use cs2620_s26_psets.Bytes.{Bytes}
use cs2620_s26_psets.Pancy.Map.{IsSorted, find}
use cs2620_s26_psets.Pancy.Db.{Vv, absent_vv, Pancydb, init, max_recent_removes}

pub record Inv (d : Pancydb) : Type 0 where
  pub sorted : IsSorted d.db
  pub next_pos : 0 < d.next_version
  pub versions :
      (k : Bytes) (v : Vv) → find k d.db ≡ some v → (0 < v.version) × (v.version < d.next_version)
  pub distinct :
      (j k : Bytes) (v w : Vv)
      → find j d.db ≡ some v
      → find k d.db ≡ some w
      → v.version ≡ w.version
      → j ≡ k
  pub shared : d.nonexistent_vv ≡ absent_vv
  pub removes_bounded : length d.recent_removes ≤ max_recent_removes
  pub removes_below : All (λ r. r.remove_version < d.next_version) d.recent_removes

pub init-Inv : Inv init
unfolding find
init-Inv = record {
  sorted = tt;
  next_pos = omega arith;
  versions = λ k v e. cc;
  distinct = λ j k v w e f g. cc;
  shared = refl;
  removes_bounded = omega arith;
  removes_below = tt;
}
