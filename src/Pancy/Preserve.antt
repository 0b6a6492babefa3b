-- ===== src/Pancy/Preserve.antt =====
-- The invariant of pancydb across requests.
use cs2620_s26_psets.Base.{List, [], ◌∷◌, arith, Option-cases, inl, inr}
use cs2620_s26_psets.Pancy.Map.{find}
use cs2620_s26_psets.Pancy.Msgs.{Request, get_req, put_req, cas_req, remove_req}
use cs2620_s26_psets.Pancy.Db.{Pancydb, process_remove, process_req, run}
use cs2620_s26_psets.Pancy.Invariant.{Inv}
use cs2620_s26_psets.Pancy.Effect.{install_lem, stored-Inv, removed-Inv, process_remove_lem}

-- Every request keeps the invariant of the database: the keys ascend, versions are positive,
-- distinct and below the counter, the shared nonexistent_vv is unchanged, and at most 100 recent
-- removals are kept, all older than the counter.
pub process_req-Inv : (d : Pancydb) (r : Request) → Inv d → Inv (process_req d r).0
unfolding process_req process_remove
process_req-Inv d (get_req r) inv = inv
process_req-Inv d (put_req r) inv =
    ground (arith, install_lem d r.serial r.key r.value inv, stored-Inv d r.key r.value inv)
process_req-Inv d (cas_req r) inv =
    ground (arith, install_lem d r.serial r.key r.desired inv, stored-Inv d r.key r.desired inv)
process_req-Inv d (remove_req r) inv = elim (Option-cases (find r.key d.db)) [
  | inl e ↦ rw (e, process_remove) inv
  | inr (v, e) ↦ ground (arith, process_remove_lem d r v e inv, removed-Inv d r.key v inv)
]

pub run-Inv : (d : Pancydb) (rs : List Request) → Inv d → Inv (run d rs)
unfolding run
run-Inv d [] inv = inv
run-Inv d (r ∷ rs) inv = run-Inv (process_req d r).0 rs (process_req-Inv d r inv)
