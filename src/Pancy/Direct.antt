-- ===== src/Pancy/Direct.antt =====
-- The direct interface of pancydb (version, exists, get, put, remove) against the messages.
use cs2620_s26_psets.Base.{◌<◌, ◌≡◌, refl, ◌↔◌, inl, inr, true, arith, Option-cases, none}
use cs2620_s26_psets.Pancy.Db
use cs2620_s26_psets.Pancy.Map.{emplace_present, find}
use cs2620_s26_psets.Pancy.Db.{process_put, Pancydb, process_remove, mod_ok, process_get}
use cs2620_s26_psets.Pancy.Effect.{stored, install_lem, process_remove_lem, do_remove_lem}
use cs2620_s26_psets.Pancy.Msgs.{
  PutRequest, RemoveRequest, any_version, ok, GetRequest, nonexistent_version,
}
use cs2620_s26_psets.Bytes.{Bytes}
use cs2620_s26_psets.Pancy.Invariant.{Inv}

put-stored : (d : Pancydb) (k value : Bytes) → Inv d → Db.put d k value ≡ stored d k value
unfolding Db.put stored
put-stored d k value inv =
    ground (
      arith,
      emplace_present k (record { value = value; version = d.next_version }) d.db inv.sorted,
    )

put-process_put :
    (d : Pancydb) (r : PutRequest)
    → Inv d
    → r.version_match ≡ any_version
    → Db.put d r.key r.value ≡ (process_put d r).0
unfolding process_put
put-process_put d r inv h =
    ground (arith, put-stored d r.key r.value inv, install_lem d r.serial r.key r.value inv)

remove-process_remove :
    (d : Pancydb) (r : RemoveRequest)
    → Inv d
    → r.version_match ≡ any_version
    → ((Db.remove d r.key).0 ≡ (process_remove d r).0)
      × (((Db.remove d r.key).1 ≡ true) ↔ ((process_remove d r).1.header.errcode ≡ ok))
unfolding Db.remove process_remove mod_ok
remove-process_remove d r inv h = elim (Option-cases (find r.key d.db)) [
  | inl e ↦ rw (e, process_remove, Db.remove) (refl, ((λ f. cc), (λ f. cc)))
  | inr (v, e) ↦
      rw (e, Db.remove) (ground (arith, process_remove_lem d r v e inv, do_remove_lem d r.key v))
]

get_exists :
    (d : Pancydb) (k : Bytes)
    → Inv d
    → (Db.get d k ≡ find k d.db) × ((Db.exists d k ≡ true) ↔ (0 < Db.version d k))
unfolding Db.get Db.exists Db.version
get_exists d k inv = elim (Option-cases (find k d.db)) [
  | inl e ↦ ground (arith, inv.shared)
  | inr (v, e) ↦ ground (arith, inv.versions k v e)
]

-- On a database that satisfies the invariant: a GET is always answered with ok, and the version in
-- the answer is 0 exactly if the key is absent.
pub get_answers_ok :
    (d : Pancydb) (r : GetRequest)
    → Inv d
    → ((process_get d r).header.errcode ≡ ok)
      × (((process_get d r).version ≡ nonexistent_version) ↔ (find r.key d.db ≡ none))
unfolding process_get
get_answers_ok d r inv = elim (Option-cases (find r.key d.db)) [
  | inl e ↦ ground (arith, inv.shared)
  | inr (v, e) ↦ ground (arith, inv.versions r.key v e)
]

-- On a database that satisfies the invariant: the direct put and remove leave the databases that a
-- PUT and a REMOVE for any version leave; remove answers true exactly if the REMOVE is answered
-- with ok; the direct get gives the entry of a key, and exists is true exactly if version is not 0.
pub direct-process :
    (d : Pancydb) (p : PutRequest) (r : RemoveRequest) (k : Bytes)
    → Inv d
    → p.version_match ≡ any_version
    → r.version_match ≡ any_version
    → (Db.put d p.key p.value ≡ (process_put d p).0)
      × ((Db.remove d r.key).0 ≡ (process_remove d r).0)
      × (((Db.remove d r.key).1 ≡ true) ↔ ((process_remove d r).1.header.errcode ≡ ok))
      × (Db.get d k ≡ find k d.db)
      × ((Db.exists d k ≡ true) ↔ (0 < Db.version d k))
direct-process d p r k inv e f =
    let removed = remove-process_remove d r inv f in
    let found = get_exists d k inv in
    (put-process_put d p inv e, removed.0, removed.1, found.0, found.1)
