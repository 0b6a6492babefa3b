-- ===== src/Pancy/Tests.antt =====
-- The theorems on pancydb at small databases, and runs of the code.
use cs2620_s26_psets.Pancy.Db
use cs2620_s26_psets.Pancy.Db.{
  init, run, Pancydb, process_req, process_get, process_cas, process_remove, process_put, install,
  do_remove, mod_no_match, trim_removes,
}
use cs2620_s26_psets.Pancy.Map.{find, erase, assign, emplace}
use cs2620_s26_psets.Base.{
  ◌+◌, ◌<◌, ◌≡◌, refl, ◌≢◌, ◌↔◌, true, none, some, List, [], ◌∷◌, arith, pos, ◌^◌,
}
use cs2620_s26_psets.Pancy.Lock.{
  touches, cas_locks, held, process_req_frame, unlock_once, Untouched, lock_exclusive, lock_release,
}
use cs2620_s26_psets.Pancy.Msgs.{
  RemoveRequest, Request, CasRequest, PutRequest, GetRequest, response_errcode, cas_req, Errc,
  any_version, put_req, nonexistent_version, remove_req, get_req,
}
use cs2620_s26_psets.Pancy.Versions.{run_versions, failed_unchanged, changes_done}
use cs2620_s26_psets.Bytes.{Bytes, str_cmp, str_eq}
use cs2620_s26_psets.Pancy.Spec.{answers, spec_answers, empty_spec}
use cs2620_s26_psets.Pancy.Direct.{direct-process, get_answers_ok}
use cs2620_s26_psets.Pancy.Invariant.{Inv, init-Inv}
use cs2620_s26_psets.Pancy.Preserve.{process_req-Inv, run-Inv}
use cs2620_s26_psets.Pancy.Refinement.{answers-Refines, answers_correct}
use cs2620_s26_psets.Pancy.Diff.{diff}
use cs2620_s26_psets.Pancy.DiffZero.{diff_zero}

-- "a" and "b".
abbrev key_a : Bytes
key_a = b'a' ∷ []

abbrev key_b : Bytes
key_b = b'b' ∷ []

abbrev owner : Bytes
owner = b'c' ∷ b'1' ∷ []

abbrev lock_a : CasRequest
lock_a = record {
  serial = 1;
  key = key_a;
  expected = [];
  desired = owner;
  version_match = any_version;
}

abbrev put_a : PutRequest
put_a = record { serial = 4; key = key_a; value = owner; version_match = any_version }

abbrev put_b : PutRequest
put_b = record { serial = 2; key = key_b; value = owner; version_match = any_version }

abbrev stale_put_b : PutRequest
stale_put_b = record { serial = 6; key = key_b; value = owner; version_match = pos 3 }

abbrev unlock_a : RemoveRequest
unlock_a = record { serial = 3; key = key_a; version_match = pos 1 }

abbrev remove_a : RemoveRequest
remove_a = record { serial = 3; key = key_a; version_match = any_version }

abbrev read_b : GetRequest
read_b = record { serial = 5; key = key_b }

abbrev session : List Request
session = cas_req lock_a ∷ put_req put_b ∷ remove_req unlock_a ∷ get_req read_b ∷ []

session-run : (run init session).next_version ≡ 4
unfolding run process_req process_remove install do_remove trim_removes find emplace assign erase
    str_cmp str_eq
session-run = refl

-- A lost reply: the second unlock is answered with not_found.
second_unlock : (process_remove (run init session) unlock_a).1.header.errcode ≡ Errc.not_found
unfolding run process_req process_remove install do_remove trim_removes find emplace assign erase
    str_cmp str_eq
second_unlock = refl

process_req-Inv_example : Inv (process_req init (cas_req lock_a)).0
process_req-Inv_example = process_req-Inv init (cas_req lock_a) init-Inv

run-Inv_example : Inv (run init session)
run-Inv_example = run-Inv init session init-Inv

answers-Refines_example : answers init session ≡ spec_answers empty_spec session
unfolding find
answers-Refines_example =
    answers-Refines init empty_spec session init-Inv (record { next = refl; same = λ k. refl })

answers_correct_example : answers init session ≡ spec_answers empty_spec session
answers_correct_example = answers_correct session

run_versions_example :
    ((run init session).next_version ≡ init.next_version + changes_done (answers init session))
    × ((run init session).next_version < 2 ^ 63)
run_versions_example = run_versions init session init-Inv (omega arith)

failed_unchanged_example : (process_req init (put_req stale_put_b)).0 ≡ init
unfolding process_req find response_errcode mod_no_match
failed_unchanged_example = failed_unchanged init (put_req stale_put_b) init-Inv (λ e. cc)

process_req_frame_example : find key_b (process_req init (cas_req lock_a)).0.db ≡ find key_b init.db
unfolding touches str_cmp
process_req_frame_example = process_req_frame init key_b (cas_req lock_a) init-Inv refl

locked : (process_cas init lock_a).1.header.errcode ≡ Errc.ok
unfolding process_cas install find emplace str_eq str_cmp
locked = refl

others : Untouched key_a (put_req put_b ∷ [])
unfolding touches str_cmp
others = (refl, tt)

cas_locks_example :
    find key_a (process_cas init lock_a).0.db
    ≡ some (record { value = owner; version = (process_cas init lock_a).1.version })
cas_locks_example = cas_locks init lock_a init-Inv locked

lock_exclusive_example :
    ((process_cas (held init lock_a (put_req put_b ∷ []) init-Inv locked others) lock_a).0
      ≡ held init lock_a (put_req put_b ∷ []) init-Inv locked others)
    × ((process_cas
          (held init lock_a (put_req put_b ∷ []) init-Inv locked others)
          lock_a).1.header.errcode
        ≡ Errc.no_match)
    × ((process_cas (held init lock_a (put_req put_b ∷ []) init-Inv locked others) lock_a).1.actual
        ≡ owner)
lock_exclusive_example =
    lock_exclusive init lock_a (put_req put_b ∷ []) init-Inv locked others lock_a refl refl
      (λ e. cc)

lock_version : pos 1 ≡ pos (process_cas init lock_a).1.version
unfolding process_cas install find emplace str_eq str_cmp
lock_version = refl

lock_release_example :
    (find key_a
        (process_remove
          (held init lock_a (put_req put_b ∷ []) init-Inv locked others)
          unlock_a).0.db
      ≡ none)
    × ((process_remove
          (held init lock_a (put_req put_b ∷ []) init-Inv locked others)
          unlock_a).1.header.errcode
        ≡ Errc.ok)
lock_release_example =
    lock_release init lock_a (put_req put_b ∷ []) init-Inv locked others unlock_a refl lock_version

abbrev one_lock : Pancydb
one_lock = (process_cas init lock_a).0

one_lock-Inv : Inv one_lock
unfolding process_req
one_lock-Inv = process_req-Inv init (cas_req lock_a) init-Inv

released : (process_remove one_lock unlock_a).1.header.errcode ≡ Errc.ok
unfolding process_cas process_remove install find emplace str_eq str_cmp
released = refl

unlock_once_example :
    let e = run (process_remove one_lock unlock_a).0 (cas_req lock_a ∷ []) in
    ((process_remove e unlock_a).0 ≡ e) × ((process_remove e unlock_a).1.header.errcode ≢ Errc.ok)
unlock_once_example =
    unlock_once one_lock unlock_a 1 (cas_req lock_a ∷ []) one_lock-Inv refl released

diff_zero_example : (diff init one_lock 0 ≡ none) ↔ (init.db ≡ one_lock.db)
unfolding process_cas install find emplace str_eq str_cmp
diff_zero_example = diff_zero init one_lock init-Inv one_lock-Inv (omega arith) (omega arith)

direct-process_example :
    (Db.put one_lock put_a.key put_a.value ≡ (process_put one_lock put_a).0)
    × ((Db.remove one_lock remove_a.key).0 ≡ (process_remove one_lock remove_a).0)
    × (((Db.remove one_lock remove_a.key).1 ≡ true)
        ↔ ((process_remove one_lock remove_a).1.header.errcode ≡ Errc.ok))
    × (Db.get one_lock key_a ≡ find key_a one_lock.db)
    × ((Db.exists one_lock key_a ≡ true) ↔ (0 < Db.version one_lock key_a))
direct-process_example = direct-process one_lock put_a remove_a key_a one_lock-Inv refl refl

get_answers_ok_example :
    ((process_get init read_b).header.errcode ≡ Errc.ok)
    × (((process_get init read_b).version ≡ nonexistent_version) ↔ (find key_b init.db ≡ none))
get_answers_ok_example = get_answers_ok init read_b init-Inv
