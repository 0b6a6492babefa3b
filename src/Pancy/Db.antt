-- ===== src/Pancy/Db.antt =====
-- class pancydb of pset3/pancydb.hh and pset3/pancydb.cc: its state and its operations.
-- `vv::nonexistent_vv` is a mutable object with static storage to which pointers are handed out; it
-- is a field here, so that a write through such a pointer shows. Versions are
-- numbers that do not wrap.
use cs2620_s26_psets.Base.{
  ℕ, zero, suc, ◌+◌, Bool, true, false, not, ◌&&◌, ◌||◌, List, [], ◌∷◌, Option, none, some, ltb,
  ◌==◌, if◌then◌else◌, ℤ, pos, leb_ℤ, eqb_ℤ, length,
}
use cs2620_s26_psets.Bytes.{Bytes, str_eq}
use cs2620_s26_psets.Pancy.Map.{Map}
use cs2620_s26_psets.Pancy.Map
use cs2620_s26_psets.Pancy.Msgs.{
  nonexistent_version, ok, not_found, no_match, GetRequest, PutRequest, CasRequest, RemoveRequest,
  GetResponse, ModResponse, Request, get_req, put_req, cas_req, remove_req, Response, get_resp,
  put_resp, cas_resp, remove_resp, response_header,
}

pub record Vv : Type 0 where
  pub value : Bytes
  pub version : ℕ

abbrev pub absent_vv : Vv
absent_vv = record { value = []; version = nonexistent_version }

pub record RecentRemove : Type 0 where
  pub key : Bytes
  pub vv : Vv
  pub remove_version : ℕ

pub record Pancydb : Type 0 where
  pub next_version : ℕ
  pub db : Map Vv
  pub recent_removes : List RecentRemove
  pub nonexistent_vv : Vv

abbrev pub max_recent_removes : ℕ
max_recent_removes = 100

abbrev pub init : Pancydb
init = record { next_version = 1; db = []; recent_removes = []; nonexistent_vv = absent_vv }

-- A `vv*`: to the entry of a key, or to the shared object.
pub data VvPtr : Type 0 where
  entry : Bytes → VvPtr
  nonexistent : VvPtr

-- `!vvp`: neither address is null.
unfoldable pub is_null : VvPtr → Bool
is_null (entry k) = false
is_null nonexistent = false

-- `*vvp`.
unfoldable pub deref : Pancydb → VvPtr → Vv
deref d nonexistent = d.nonexistent_vv
deref d (entry k) = elim (Map.find k d.db) [ some v ↦ v | none ↦ d.nonexistent_vv ]

-- `vvp->value = value; vvp->version = version`.
unfoldable pub write_vv : Pancydb → VvPtr → Vv → Pancydb
write_vv d nonexistent v = record d { nonexistent_vv = v }
write_vv d (entry k) v = record d { db = Map.assign k v d.db }

unfoldable pub find_vvptr : Pancydb → Bytes → VvPtr
find_vvptr d key = elim (Map.find key d.db) [ some v ↦ entry key | none ↦ nonexistent ]

-- The pointer, and whether the entry is new.
unfoldable pub emplace_vvptr : Pancydb → Bytes → Bytes → Pancydb × VvPtr × Bool
emplace_vvptr d key value = (
  record d { db = Map.emplace key (record { value = value; version = d.next_version }) d.db },
  entry key,
  elim (Map.find key d.db) [ some v ↦ false | none ↦ true ],
)

-- `++next_version_`.
abbrev pub bump : Pancydb → Pancydb
bump d = record d { next_version = d.next_version + 1 }

abbrev pub pop_back {ℓ} : {A : Type ℓ} → List A → List A
pop_back [] = []
pop_back (x ∷ []) = []
pop_back (x ∷ y ∷ xs) = x ∷ pop_back (y ∷ xs)

-- `while (recent_removes_.size() > max_recent_removes) recent_removes_.pop_back();`
unfoldable pub trim_removes : ℕ → List RecentRemove → List RecentRemove
trim_removes zero rs = rs
trim_removes (suc fuel) rs =
    let rest = trim_removes fuel (pop_back rs) in
    if ltb max_recent_removes (length rs) then rest else rs

unfoldable pub do_remove : Pancydb → Bytes → Vv → Pancydb
do_remove d key vv =
    let removed : RecentRemove = record { key = key; vv = vv; remove_version = d.next_version } in
    let grown = removed ∷ d.recent_removes in
    let kept = trim_removes (length grown) grown in
    let e : Pancydb = record d { recent_removes = kept } in
    let f = bump e in record f { db = Map.erase key f.db }

-- The direct interface.
unfoldable pub version : Pancydb → Bytes → ℕ
unfolding find_vvptr deref
version d key = (deref d (find_vvptr d key)).version

unfoldable pub exists : Pancydb → Bytes → Bool
exists d key = elim (Map.find key d.db) [ some v ↦ true | none ↦ false ]

unfoldable pub get : Pancydb → Bytes → Option Vv
unfolding find_vvptr deref
get d key = let vv = deref d (find_vvptr d key) in if not (vv.version == 0) then some vv else none

unfoldable pub put : Pancydb → Bytes → Bytes → Pancydb
unfolding emplace_vvptr write_vv
put d key value =
    let (d', vvp, inserted) = emplace_vvptr d key value in
    let d'' =
      if not inserted
      then write_vv d' vvp (record { value = value; version = d'.next_version })
      else d' in
    bump d''

unfoldable pub remove : Pancydb → Bytes → Pancydb × Bool
unfolding do_remove
remove d key = elim (Map.find key d.db) [ none ↦ (d, false) | some v ↦ (do_remove d key v, true) ]

-- The message interface.
unfoldable pub mod_no_match : ℕ → Vv → ModResponse
mod_no_match serial vv = record {
  header = response_header serial no_match;
  actual = vv.value;
  previous_version = vv.version;
  version = vv.version;
}

unfoldable pub mod_ok : ℕ → ℕ → Vv → ModResponse
mod_ok serial previous_version vv = record {
  header = response_header serial ok;
  actual = [];
  previous_version = previous_version;
  version = vv.version;
}

-- `version_match >= 0 && version_match != version`.
abbrev pub fails_match : ℤ → ℕ → Bool
fails_match version_match version =
    leb_ℤ (pos 0) version_match && not (eqb_ℤ version_match (pos version))

unfoldable pub process_get : Pancydb → GetRequest → GetResponse
unfolding find_vvptr deref is_null
process_get d req =
    let vvp = find_vvptr d req.key in
    if is_null vvp
    then record {
      header = response_header req.serial not_found;
      value = [];
      version = nonexistent_version;
    }
    else record {
      header = response_header req.serial ok;
      value = (deref d vvp).value;
      version = (deref d vvp).version;
    }

-- The part that put and cas share: install `value` at the key, and answer.
unfoldable pub install : Pancydb → ℕ → Bytes → Bytes → VvPtr → Pancydb × ModResponse
unfolding deref emplace_vvptr write_vv mod_ok
install d serial key value vvp =
    if (deref d vvp).version == nonexistent_version
    then (let (d', vvp', _) = emplace_vvptr d key value in
        let d'' = bump d' in (d'', mod_ok serial nonexistent_version (deref d'' vvp')))
    else (let previous_version = (deref d vvp).version in
        let d' = write_vv d vvp (record { value = value; version = d.next_version }) in
        let d'' = bump d' in (d'', mod_ok serial previous_version (deref d'' vvp)))

unfoldable pub process_put : Pancydb → PutRequest → Pancydb × ModResponse
unfolding find_vvptr deref mod_no_match
process_put d req =
    let vvp = find_vvptr d req.key in
    if fails_match req.version_match (deref d vvp).version
    then (d, mod_no_match req.serial (deref d vvp))
    else install d req.serial req.key req.value vvp

unfoldable pub process_cas : Pancydb → CasRequest → Pancydb × ModResponse
unfolding find_vvptr deref mod_no_match
process_cas d req =
    let vvp = find_vvptr d req.key in
    if not (str_eq req.expected (deref d vvp).value)
      || fails_match req.version_match (deref d vvp).version
    then (d, mod_no_match req.serial (deref d vvp))
    else install d req.serial req.key req.desired vvp

unfoldable pub process_remove : Pancydb → RemoveRequest → Pancydb × ModResponse
unfolding deref mod_no_match mod_ok
process_remove d req = elim (Map.find req.key d.db) [
  | none ↦ (
    d,
    record {
      header = response_header req.serial not_found;
      actual = [];
      previous_version = nonexistent_version;
      version = nonexistent_version;
    },
  )
  | some vv ↦
      if fails_match req.version_match vv.version
      then (d, mod_no_match req.serial vv)
      else (let previous_version = vv.version in
          let d' = do_remove d req.key vv in
          (d', mod_ok req.serial previous_version (deref d' nonexistent)))
]

unfoldable pub process_req : Pancydb → Request → Pancydb × Response
unfolding process_get process_put process_cas
process_req d (get_req r) = (d, get_resp (process_get d r))
process_req d (put_req r) = let (d', resp) = process_put d r in (d', put_resp resp)
process_req d (cas_req r) = let (d', resp) = process_cas d r in (d', cas_resp resp)
process_req d (remove_req r) = let (d', resp) = process_remove d r in (d', remove_resp resp)

-- A service that answers requests one after another.
unfoldable pub run : Pancydb → List Request → Pancydb
run d [] = d
run d (r ∷ rs) = run (process_req d r).0 rs
