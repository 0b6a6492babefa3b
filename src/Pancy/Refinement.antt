-- ===== src/Pancy/Refinement.antt =====
-- pancydb against its specification: the answers, and the map at every key.
use mathlib.Core.Path.{ap₂}
use cs2620_s26_psets.Base.{
  ℕ, ◌≡◌, refl, ap, inl, inr, true, not, none, some, List, [], ◌∷◌, arith, Option-cases, ℤ, pos,
  negsuc,
}
use cs2620_s26_psets.Bytes.{Bytes, str_eq, str_eq_iff, str_cmp, str_cmp_eq, str_cmp_refl}
use cs2620_s26_psets.Pancy.Map.{find, is_eq}
use cs2620_s26_psets.Pancy.Db.{
  Vv, Pancydb, init, process_req, version, deref, fails_match, find_vvptr, mod_ok, mod_no_match,
  process_remove,
}
use cs2620_s26_psets.Pancy.Invariant.{Inv, init-Inv}
use cs2620_s26_psets.Pancy.Effect.{
  stored, removed, install_lem, find-stored, find-removed, process_remove_lem,
}
use cs2620_s26_psets.Pancy.Spec.{
  Spec, seen, matches, update, spec_step, spec_answers, answers, empty_spec,
}
use cs2620_s26_psets.Pancy.Msgs.{
  Request, RemoveRequest, get_req, PutRequest, CasRequest, remove_req, cas_req, put_req,
}
use cs2620_s26_psets.Pancy.Preserve.{process_req-Inv}

pub record Refines (d : Pancydb) (s : Spec) : Type 0 where
  pub next : d.next_version ≡ s.next
  pub same : (k : Bytes) → find k d.db ≡ s.at k

is_eq-str_cmp : (j k : Bytes) → is_eq (str_cmp j k) ≡ str_eq j k
is_eq-str_cmp j k = ground (arith, str_eq_iff j k, str_cmp_eq j k, str_cmp_refl j)

fails_match-not : (m : ℤ) (v : ℕ) → fails_match m v ≡ not (matches m v)
fails_match-not (pos n) v = ground arith
fails_match-not (negsuc n) v = ground arith

module _ (d : Pancydb) (s : Spec) (inv : Inv d) (ref : Refines d s) where
  seen_vv : (k : Bytes) → deref d (find_vvptr d k) ≡ seen (s.at k)
  unfolding deref find_vvptr
  seen_vv k = ground (arith, ref.same k, inv.shared)

  version-seen : (k : Bytes) → version d k ≡ (seen (s.at k)).version
  unfolding version
  version-seen k = ap (λ (v : Vv). v.version) (seen_vv k)

  stored-Refines :
      (serial : ℕ) (k value : Bytes)
      → Refines (stored d k value) (update s serial k true (some value)).0
  unfolding update stored
  stored-Refines serial k value = record {
    next = ground (arith, ref.next);
    same = λ j. ground (arith, find-stored d k j value, is_eq-str_cmp j k, ref.same j, ref.next);
  }

  removed-Refines :
      (serial : ℕ) (k : Bytes) (v : Vv) → Refines (removed d k v) (update s serial k true none).0
  unfolding update removed
  removed-Refines serial k v = record {
    next = ground (arith, ref.next);
    same = λ j. ground (arith, find-removed d k j v inv.sorted, is_eq-str_cmp j k, ref.same j);
  }

  put-Refines :
      (r : PutRequest)
      → ((process_req d (put_req r)).1 ≡ (spec_step s (put_req r)).1)
        × Refines (process_req d (put_req r)).0 (spec_step s (put_req r)).0
  unfolding process_req spec_step mod_ok
  put-Refines r = ground (
    arith,
    install_lem d r.serial r.key r.value inv,
    seen_vv r.key,
    version-seen r.key,
    ref.next,
    fails_match-not r.version_match (seen (s.at r.key)).version,
    stored-Refines r.serial r.key r.value,
  )

  cas-Refines :
      (r : CasRequest)
      → ((process_req d (cas_req r)).1 ≡ (spec_step s (cas_req r)).1)
        × Refines (process_req d (cas_req r)).0 (spec_step s (cas_req r)).0
  unfolding process_req spec_step mod_ok
  cas-Refines r = ground (
    arith,
    install_lem d r.serial r.key r.desired inv,
    seen_vv r.key,
    version-seen r.key,
    ref.next,
    fails_match-not r.version_match (seen (s.at r.key)).version,
    stored-Refines r.serial r.key r.desired,
  )

  remove-Refines :
      (r : RemoveRequest)
      → ((process_req d (remove_req r)).1 ≡ (spec_step s (remove_req r)).1)
        × Refines (process_req d (remove_req r)).0 (spec_step s (remove_req r)).0
  unfolding process_req spec_step mod_ok mod_no_match process_remove
  remove-Refines r = elim (Option-cases (find r.key d.db)) [
    | inl e ↦ rw (e, process_remove) (ground (arith, ref.same r.key, ref))
    | inr (v, e) ↦ ground (
      arith,
      process_remove_lem d r v e inv,
      ref.same r.key,
      ref.next,
      fails_match-not r.version_match v.version,
      removed-Refines r.serial r.key v,
    )
  ]

  step-Refines :
      (r : Request)
      → ((process_req d r).1 ≡ (spec_step s r).1) × Refines (process_req d r).0 (spec_step s r).0
  unfolding process_req spec_step
  step-Refines (get_req r) = (ground (arith, seen_vv r.key), ref)
  step-Refines (put_req r) = put-Refines r
  step-Refines (cas_req r) = cas-Refines r
  step-Refines (remove_req r) = remove-Refines r

-- From any database that satisfies the invariant and any specification state with the same counter
-- and the same map, the answers of process_req to every list of requests are the answers of the
-- specification, in which each modification is one conditional update of a function from keys to
-- versioned values.
pub answers-Refines :
    (d : Pancydb) (s : Spec) (rs : List Request)
    → Inv d
    → Refines d s
    → answers d rs ≡ spec_answers s rs
unfolding answers spec_answers
answers-Refines d s [] inv ref = refl
answers-Refines d s (r ∷ rs) inv ref =
    let (same, ref') = step-Refines d s inv ref r in
    ap₂ ◌∷◌ same
      (answers-Refines (process_req d r).0 (spec_step s r).0 rs (process_req-Inv d r inv) ref')

-- From the empty database on, the answers to every list of requests are those of the specification.
pub answers_correct : (rs : List Request) → answers init rs ≡ spec_answers empty_spec rs
unfolding find
answers_correct rs =
    answers-Refines init empty_spec rs init-Inv (record { next = refl; same = λ k. refl })
