-- ===== src/Pancy/Lock.antt =====
-- Locks as pset3/lockseq_model.cc takes them: a compare-and-swap from the empty value installs a
-- lock, and a remove that names the lock's version takes it away.
use cs2620_s26_psets.Base.{
  ℕ, ◌≡◌, refl, ap, ◌∙◌, ◌≢◌, inl, inr, Bool, false, none, some, List, [], ◌∷◌, arith, Option-cases,
  All, pos,
}
use cs2620_s26_psets.Pancy.Effect.{
  removed, install_lem, process_remove_lem, find-stored, find-removed,
}
use cs2620_s26_psets.Pancy.Db.{
  run, process_cas, Pancydb, process_req, process_remove, mod_ok, mod_no_match, find_vvptr, deref,
  Vv,
}
use cs2620_s26_psets.Bytes.{Bytes, str_cmp_refl, str_cmp, str_eq_iff}
use cs2620_s26_psets.Pancy.Msgs.{
  Request, CasRequest, ok, get_req, put_req, cas_req, remove_req, RemoveRequest, no_match,
}
use cs2620_s26_psets.Pancy.Invariant.{Inv}
use cs2620_s26_psets.Pancy.Map.{find, is_eq}
use cs2620_s26_psets.Pancy.Preserve.{run-Inv, process_req-Inv}
use cs2620_s26_psets.Pancy.Versions.{run-IsStale, IsStale}

-- The request may change the entry of the key.
unfoldable pub touches : Bytes → Request → Bool
touches k (get_req r) = false
touches k (put_req r) = is_eq (str_cmp k r.key)
touches k (cas_req r) = is_eq (str_cmp k r.key)
touches k (remove_req r) = is_eq (str_cmp k r.key)

abbrev pub Untouched : Bytes → List Request → Type 0
Untouched k rs = All (λ r. touches k r ≡ false) rs

-- On a database that satisfies the invariant: a request for another key, or a GET, leaves the
-- entry of a key alone.
pub process_req_frame :
    (d : Pancydb) (k : Bytes) (r : Request)
    → Inv d
    → touches k r ≡ false
    → find k (process_req d r).0.db ≡ find k d.db
unfolding process_req touches process_remove
process_req_frame d k (get_req r) inv h = refl
process_req_frame d k (put_req r) inv h =
    ground (arith, install_lem d r.serial r.key r.value inv, find-stored d r.key k r.value)
process_req_frame d k (cas_req r) inv h =
    ground (arith, install_lem d r.serial r.key r.desired inv, find-stored d r.key k r.desired)
process_req_frame d k (remove_req r) inv h = elim (Option-cases (find r.key d.db)) [
  | inl e ↦ rw (e, process_remove)
  | inr (v, e) ↦ ground (arith, process_remove_lem d r v e inv, find-removed d r.key k v inv.sorted)
]

pub run_frame :
    (d : Pancydb) (k : Bytes) (rs : List Request)
    → Inv d
    → Untouched k rs
    → find k (run d rs).db ≡ find k d.db
unfolding run
run_frame d k [] inv h = refl
run_frame d k (r ∷ rs) inv h =
    run_frame (process_req d r).0 k rs (process_req-Inv d r inv) h.1
    ∙ process_req_frame d k r inv h.0

-- A compare-and-swap from the empty value that is answered with ok installs its value under the
-- version that the answer names.
pub cas_locks :
    (d : Pancydb) (r : CasRequest)
    → Inv d
    → (process_cas d r).1.header.errcode ≡ ok
    → find r.key (process_cas d r).0.db
      ≡ some (record { value = r.desired; version = (process_cas d r).1.version })
unfolding process_cas mod_ok mod_no_match
cas_locks d r inv h = ground (
  arith,
  install_lem d r.serial r.key r.desired inv,
  find-stored d r.key r.key r.desired,
  str_cmp_refl r.key,
)

module _ (d : Pancydb) (r : CasRequest) (rs : List Request) (inv : Inv d)
    (locked : (process_cas d r).1.header.errcode ≡ ok) (others : Untouched r.key rs) where
  -- The database while the lock is held.
  pub held : Pancydb
  held = run (process_cas d r).0 rs

  held-Inv : Inv held
  unfolding held process_req
  held-Inv = run-Inv (process_cas d r).0 rs (process_req-Inv d (cas_req r) inv)

  find-held :
      find r.key held.db
      ≡ some (record { value = r.desired; version = (process_cas d r).1.version })
  unfolding held process_req
  find-held =
      run_frame (process_cas d r).0 r.key rs (process_req-Inv d (cas_req r) inv) others
      ∙ cas_locks d r inv locked

  -- On a database that satisfies the invariant: after a compare-and-swap that was answered with
  -- ok, and any requests for other keys, a compare-and-swap of the same key from the empty value
  -- is answered with no_match and the holder's value, and changes nothing, if the holder's value
  -- is not empty.
  pub lock_exclusive :
      (q : CasRequest)
      → q.key ≡ r.key
      → q.expected ≡ []
      → r.desired ≢ []
      → ((process_cas held q).0 ≡ held)
        × ((process_cas held q).1.header.errcode ≡ no_match)
        × ((process_cas held q).1.actual ≡ r.desired)
  unfolding process_cas mod_no_match find_vvptr deref
  lock_exclusive q same from nonempty =
      ground (arith, find-held, ap (λ k. find k held.db) same, str_eq_iff q.expected r.desired)

  -- On a database that satisfies the invariant: after a compare-and-swap that was answered with
  -- ok, and any requests for other keys, the remove of that key that names the version of the
  -- answer is answered with ok and leaves no entry at the key.
  pub lock_release :
      (q : RemoveRequest)
      → q.key ≡ r.key
      → q.version_match ≡ pos (process_cas d r).1.version
      → (find r.key (process_remove held q).0.db ≡ none)
        × ((process_remove held q).1.header.errcode ≡ ok)
  unfolding mod_ok mod_no_match
  lock_release q same vm =
      let e : find q.key held.db
          ≡ some (record { value = r.desired; version = (process_cas d r).1.version }) =
        rw same find-held in
      ground (
        arith,
        process_remove_lem held q
            (record { value = r.desired; version = (process_cas d r).1.version }) e held-Inv,
        find-removed held q.key r.key
            (record { value = r.desired; version = (process_cas d r).1.version }) held-Inv.sorted,
        str_cmp_refl r.key,
      )

-- A removed entry leaves its version stale.
removed-spends :
    (d : Pancydb) (k : Bytes) (v : Vv)
    → Inv d
    → find k d.db ≡ some v
    → IsStale v.version (removed d k v)
unfolding removed
removed-spends d k v inv e = record {
  spent = omega (arith, inv.versions k v e);
  unused = λ j w f g.
      ground (arith, find-removed d k j v inv.sorted, inv.distinct j k w v, str_cmp_refl k);
}

-- A remove that names a version and is answered with ok makes that version stale.
remove-IsStale :
    (d : Pancydb) (q : RemoveRequest) (m : ℕ)
    → Inv d
    → q.version_match ≡ pos m
    → (process_remove d q).1.header.errcode ≡ ok
    → IsStale m (process_remove d q).0
unfolding process_remove mod_no_match
remove-IsStale d q m inv vm h = elim (Option-cases (find q.key d.db)) [
  | inl e ↦ absurd (cc (rw (e, process_remove) at h))
  | inr (v, e) ↦ ground (arith, process_remove_lem d q v e inv, removed-spends d q.key v inv e)
]

-- A remove that names a stale version is refused and changes nothing.
stale_refused :
    (d : Pancydb) (q : RemoveRequest) (m : ℕ)
    → Inv d
    → q.version_match ≡ pos m
    → IsStale m d
    → ((process_remove d q).0 ≡ d) × ((process_remove d q).1.header.errcode ≢ ok)
unfolding process_remove mod_no_match
stale_refused d q m inv vm st = elim (Option-cases (find q.key d.db)) [
  | inl e ↦ rw (e, process_remove) (refl, λ f. cc)
  | inr (v, e) ↦ ground (arith, process_remove_lem d q v e inv, st.unused q.key v e)
]

-- On a database that satisfies the invariant: once a remove that names a version has been answered
-- with ok, then after any list of requests the same remove is not answered with ok and changes
-- nothing.
pub unlock_once :
    (d : Pancydb) (q : RemoveRequest) (m : ℕ) (rs : List Request)
    → Inv d
    → q.version_match ≡ pos m
    → (process_remove d q).1.header.errcode ≡ ok
    → let e = run (process_remove d q).0 rs in
      ((process_remove e q).0 ≡ e) × ((process_remove e q).1.header.errcode ≢ ok)
unfolding process_req
unlock_once d q m rs inv vm h =
    let inv' = process_req-Inv d (remove_req q) inv in
    stale_refused (run (process_remove d q).0 rs) q m (run-Inv (process_remove d q).0 rs inv') vm
      (run-IsStale m (process_remove d q).0 rs inv' (remove-IsStale d q m inv vm h))
