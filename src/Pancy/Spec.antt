-- ===== src/Pancy/Spec.antt =====
-- What a Pancy database promises: a counter and a function from keys to versioned values. Every
-- modification is one conditional update, which draws a fresh version or leaves all as it is.
use cs2620_s26_psets.Base.{
  ℕ, ◌+◌, Bool, true, none, Option, ℤ, List, some, pos, ◌==◌, negsuc, if◌then◌else◌, ◌∷◌, [], ◌&&◌,
}
use cs2620_s26_psets.Bytes.{Bytes, str_eq}
use cs2620_s26_psets.Pancy.Db.{Vv, absent_vv, Pancydb, process_req}
use cs2620_s26_psets.Pancy.Msgs.{
  Request, ModResponse, RemoveRequest, Response, response_header, get_req, ok, not_found, get_resp,
  no_match, put_req, put_resp, cas_req, cas_resp, remove_req, remove_resp,
}

pub record Spec : Type 0 where
  pub next : ℕ
  pub at : Bytes → Option Vv

abbrev pub empty_spec : Spec
empty_spec = record { next = 1; at = λ k. none }

-- The versioned value that a request sees; an absent key shows as the empty value at version 0.
abbrev pub seen : Option Vv → Vv
seen none = absent_vv
seen (some v) = v

abbrev pub matches : ℤ → ℕ → Bool
matches (pos n) version = n == version
matches (negsuc n) version = true

-- The value that an update installs, or none to take the key away.
abbrev pub fresh : Option Bytes → ℕ → Option Vv
fresh none version = none
fresh (some value) version = some (record { value = value; version = version })

unfoldable pub update : Spec → ℕ → Bytes → Bool → Option Bytes → Spec × ModResponse
update s serial key allowed value =
    let old = seen (s.at key) in
    let new = fresh value s.next in
    if allowed
    then (
      record { next = s.next + 1; at = λ j. if str_eq j key then new else s.at j },
      record {
        header = response_header serial ok;
        actual = [];
        previous_version = old.version;
        version = (seen new).version;
      },
    )
    else (
      s,
      record {
        header = response_header serial no_match;
        actual = old.value;
        previous_version = old.version;
        version = old.version;
      },
    )

unfoldable pub spec_remove : Spec → RemoveRequest → Spec × ModResponse
unfolding update
spec_remove s r = elim (s.at r.key) [
  | none ↦ (
    s,
    record {
      header = response_header r.serial not_found;
      actual = [];
      previous_version = 0;
      version = 0;
    },
  )
  | some v ↦ update s r.serial r.key (matches r.version_match v.version) none
]

unfoldable pub spec_step : Spec → Request → Spec × Response
unfolding update spec_remove
spec_step s (get_req r) = (
  s,
  get_resp (record {
    header = response_header r.serial ok;
    value = (seen (s.at r.key)).value;
    version = (seen (s.at r.key)).version;
  }),
)
spec_step s (put_req r) =
    let (s', resp) =
      update s r.serial r.key (matches r.version_match (seen (s.at r.key)).version)
        (some r.value) in
    (s', put_resp resp)
spec_step s (cas_req r) =
    let old = seen (s.at r.key) in
    let allowed = str_eq r.expected old.value && matches r.version_match old.version in
    let (s', resp) = update s r.serial r.key allowed (some r.desired) in (s', cas_resp resp)
spec_step s (remove_req r) = let (s', resp) = spec_remove s r in (s', remove_resp resp)

-- The answers to a list of requests, by the specification and by the code.
unfoldable pub spec_answers : Spec → List Request → List Response
spec_answers s [] = []
spec_answers s (r ∷ rs) = (spec_step s r).1 ∷ spec_answers (spec_step s r).0 rs

unfoldable pub answers : Pancydb → List Request → List Response
answers d [] = []
answers d (r ∷ rs) = (process_req d r).1 ∷ answers (process_req d r).0 rs
