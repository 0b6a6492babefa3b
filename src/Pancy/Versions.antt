-- ===== src/Pancy/Versions.antt =====
-- The version counter of pancydb, and requests that leave the database alone.
use cs2620_s26_psets.Base.{
  true, false, suc, ◌∙◌, ℕ, ◌+◌, ◌≤◌, ◌<◌, ◌≡◌, refl, ◌≢◌, inl, inr, some, List, [], ◌∷◌, arith,
  Option-cases, length, Bool, if◌then◌else◌, ◌^◌, ap,
}
use cs2620_s26_psets.Pancy.Effect.{
  stored, removed, install_lem, process_remove_lem, find-stored, find-removed,
}
use cs2620_s26_psets.Pancy.Db.{run, Pancydb, process_req, process_remove, Vv, mod_ok, mod_no_match}
use cs2620_s26_psets.Bytes.{Bytes}
use cs2620_s26_psets.Pancy.Msgs.{
  response_errcode, Request, get_req, put_req, cas_req, ok, remove_req, Errc, not_found, no_match,
  redirect, Response, redirection_resp, get_resp, put_resp, cas_resp, remove_resp,
}
use cs2620_s26_psets.Pancy.Invariant.{Inv}
use cs2620_s26_psets.Pancy.Map.{find}
use cs2620_s26_psets.Pancy.Preserve.{process_req-Inv}
use cs2620_s26_psets.Pancy.Spec.{answers}

unfoldable pub is_ok : Errc → Bool
is_ok ok = true
is_ok not_found = false
is_ok no_match = false
is_ok redirect = false

-- The answers to a put, a compare-and-swap or a remove that say that it was done.
unfoldable pub changes_done : List Response → ℕ
unfolding is_ok
changes_done [] = 0
changes_done (redirection_resp r ∷ rs) = changes_done rs
changes_done (get_resp r ∷ rs) = changes_done rs
changes_done (put_resp r ∷ rs) = (if is_ok r.header.errcode then 1 else 0) + changes_done rs
changes_done (cas_resp r ∷ rs) = (if is_ok r.header.errcode then 1 else 0) + changes_done rs
changes_done (remove_resp r ∷ rs) = (if is_ok r.header.errcode then 1 else 0) + changes_done rs

-- One request advances the counter by one if it was done and is no GET.
step_version :
    (d : Pancydb) (r : Request)
    → Inv d
    → (rest : List Response)
    → (process_req d r).0.next_version + changes_done rest
      ≡ d.next_version + changes_done ((process_req d r).1 ∷ rest)
unfolding process_req stored removed process_remove changes_done is_ok mod_ok mod_no_match
step_version d (get_req r) inv rest = refl
step_version d (put_req r) inv rest = ground (arith, install_lem d r.serial r.key r.value inv)
step_version d (cas_req r) inv rest = ground (arith, install_lem d r.serial r.key r.desired inv)
step_version d (remove_req r) inv rest = elim (Option-cases (find r.key d.db)) [
  | inl e ↦ rw (e, process_remove) (omega arith)
  | inr (v, e) ↦ ground (arith, process_remove_lem d r v e inv)
]

changes_done-length : (rs : List Response) → changes_done rs ≤ length rs
unfolding changes_done
changes_done-length [] = omega arith
changes_done-length (redirection_resp r ∷ rs) = omega (arith, changes_done-length rs)
changes_done-length (get_resp r ∷ rs) = omega (arith, changes_done-length rs)
changes_done-length (put_resp r ∷ rs) = ground (arith, changes_done-length rs)
changes_done-length (cas_resp r ∷ rs) = ground (arith, changes_done-length rs)
changes_done-length (remove_resp r ∷ rs) = ground (arith, changes_done-length rs)

length-answers : (d : Pancydb) (rs : List Request) → length (answers d rs) ≡ length rs
unfolding answers
length-answers d [] = refl
length-answers d (r ∷ rs) = ap (λ n. suc n) (length-answers (process_req d r).0 rs)

versions_drawn :
    (d : Pancydb) (rs : List Request)
    → Inv d
    → (run d rs).next_version ≡ d.next_version + changes_done (answers d rs)
unfolding run answers changes_done
versions_drawn d [] inv = omega arith
versions_drawn d (r ∷ rs) inv =
    versions_drawn (process_req d r).0 rs (process_req-Inv d r inv)
    ∙ step_version d r inv (answers (process_req d r).0 rs)

-- On a database that satisfies the invariant, for a list of requests so short that the counter
-- cannot leave the range of version_type, a signed 64-bit integer: the requests advance the version
-- counter by exactly the number of puts, compare-and-swaps and removes among them that were answered
-- with ok, and it stays below 2^63.
pub run_versions :
    (d : Pancydb) (rs : List Request)
    → Inv d
    → d.next_version + length rs < 2 ^ 63
    → ((run d rs).next_version ≡ d.next_version + changes_done (answers d rs))
      × ((run d rs).next_version < 2 ^ 63)
run_versions d rs inv b = (
  versions_drawn d rs inv,
  omega (arith, versions_drawn d rs inv, changes_done-length (answers d rs), length-answers d rs),
)

-- On a database that satisfies the invariant: a request that is not answered with ok leaves the
-- database exactly as it was.
pub failed_unchanged :
    (d : Pancydb) (r : Request)
    → Inv d
    → response_errcode (process_req d r).1 ≢ ok
    → (process_req d r).0 ≡ d
unfolding process_req response_errcode mod_ok mod_no_match process_remove
failed_unchanged d (get_req r) inv h = refl
failed_unchanged d (put_req r) inv h = ground (arith, install_lem d r.serial r.key r.value inv)
failed_unchanged d (cas_req r) inv h = ground (arith, install_lem d r.serial r.key r.desired inv)
failed_unchanged d (remove_req r) inv h = elim (Option-cases (find r.key d.db)) [
  | inl e ↦ rw (e, process_remove)
  | inr (v, e) ↦ ground (arith, process_remove_lem d r v e inv)
]

-- No entry holds the version, and it will not be drawn again.
pub record IsStale (m : ℕ) (d : Pancydb) : Type 0 where
  pub spent : m < d.next_version
  pub unused : (k : Bytes) (v : Vv) → find k d.db ≡ some v → v.version ≢ m

stored-IsStale :
    (m : ℕ) (d : Pancydb) (k value : Bytes) → IsStale m d → IsStale m (stored d k value)
unfolding stored
stored-IsStale m d k value st = record {
  spent = omega arith;
  unused = λ j v e. ground (arith, find-stored d k j value, st.unused j v, st.spent);
}

removed-IsStale :
    (m : ℕ) (d : Pancydb) (k : Bytes) (v : Vv) → Inv d → IsStale m d → IsStale m (removed d k v)
unfolding removed
removed-IsStale m d k v inv st = record {
  spent = omega arith;
  unused = λ j w e. ground (arith, find-removed d k j v inv.sorted, st.unused j w, st.spent);
}

process_req-IsStale :
    (m : ℕ) (d : Pancydb) (r : Request) → Inv d → IsStale m d → IsStale m (process_req d r).0
unfolding process_req process_remove
process_req-IsStale m d (get_req r) inv st = st
process_req-IsStale m d (put_req r) inv st =
    ground (arith, install_lem d r.serial r.key r.value inv, stored-IsStale m d r.key r.value st)
process_req-IsStale m d (cas_req r) inv st =
    ground
      (arith, install_lem d r.serial r.key r.desired inv, stored-IsStale m d r.key r.desired st)
process_req-IsStale m d (remove_req r) inv st = elim (Option-cases (find r.key d.db)) [
  | inl e ↦ rw (e, process_remove) st
  | inr (v, e) ↦ ground (arith, process_remove_lem d r v e inv, removed-IsStale m d r.key v inv st)
]

pub run-IsStale :
    (m : ℕ) (d : Pancydb) (rs : List Request) → Inv d → IsStale m d → IsStale m (run d rs)
unfolding run
run-IsStale m d [] inv st = st
run-IsStale m d (r ∷ rs) inv st =
    run-IsStale m (process_req d r).0 rs (process_req-Inv d r inv)
      (process_req-IsStale m d r inv st)
