-- ===== src/Http/SearchParams.antt =====
-- has_search_param and search_param of cotamer/http.cc on the parameters of a query.
use cs2620_s26_psets.Base.{
  ℕ, ◌^◌, ◌<◌, ◌≡◌, refl, ◌∙◌, inl, inr, none, List, [], ◌∷◌, ◌++◌, arith, if◌then◌else◌,
  Bool-cases, Option-cases, length, Option, ◌⊎◌, Bool, some, ap, false, true,
}
use cs2620_s26_psets.Bytes.{Bytes, str_eq}
use cs2620_s26_psets.Http.Query.{
  QueryState, at_start, in_name, in_value, QueryInfo, has_search_param, query_loop, search_param,
  add_pair, find_param, make_params, new_query, position,
}
use cs2620_s26_psets.Http.Machine.{p_start}
use cs2620_s26_psets.Http.Rounds.{query_loop-Tracks}
use cs2620_s26_psets.Http.Tracks.{text}
use cs2620_s26_psets.Http.Message.{KvOffsets, value_of, name_of}
use cs2620_s26_psets.Http.Params.{params}
use cs2620_s26_psets.Http.Views.{views}
use cs2620_s26_psets.Http.MachineParams.{part_loop-params}

state_cases : (st : QueryState) → (st ≡ at_start) ⊎ ((st ≡ in_name) ⊎ (st ≡ in_value))
state_cases at_start = inl refl
state_cases in_name = inr (inl refl)
state_cases in_value = inr (inr refl)

add_pair-qurl : (n : ℕ) (q : QueryInfo) → (add_pair n q).qurl ≡ q.qurl
add_pair-qurl n q = elim (state_cases q.state) [
  | inl e ↦ rw (add_pair, e) refl
  | inr (inl e) ↦ rw (add_pair, e) refl
  | inr (inr e) ↦ rw (add_pair, e) refl
]

-- The end of the loop.
flushed-qpairs :
    (n : ℕ) (q : QueryInfo)
    → (add_pair n (record q { qurl = q.qurl ++ q.pending; pending = [] })).qpairs
      ≡ (add_pair n q).qpairs
flushed-qpairs n q = elim (state_cases q.state) [
  | inl e ↦ rw (add_pair, e) refl
  | inr (inl e) ↦ rw (add_pair, e) refl
  | inr (inr e) ↦ rw (add_pair, e) refl
]

pub make_params-params :
    (s : Bytes) → length s < 2 ^ 32 → views (make_params s).qurl (make_params s).qpairs ≡ params s
unfolding make_params
make_params-params s b =
    let q = query_loop 0 s new_query in
    let q1 = record q { qurl = q.qurl ++ q.pending; pending = [] } in
    let run =
      query_loop-Tracks 0 s new_query p_start []
        (record { all_fit = tt; pairs_done = refl; follows = (refl, refl) }) (omega arith) in
    let place : position q1 ≡ length (text q) = omega (arith, run.1) in
    rw (place, add_pair-qurl (length (text q)) q1, flushed-qpairs (length (text q)) q)
      (run.0 ∙ part_loop-params s)

-- The value of the first parameter with a name.
unfoldable pub find_value : Bytes → List (Bytes × Bytes) → Option Bytes
find_value name [] = none
find_value name ((n, v) ∷ ps) =
    let rest = find_value name ps in if str_eq n name then some v else rest

abbrev pub is_some : Option Bytes → Bool
is_some none = false
is_some (some v) = true

abbrev pub value_or_empty : Option Bytes → Bytes
value_or_empty none = []
value_or_empty (some v) = v

abbrev map_option : (KvOffsets → Bytes) → Option KvOffsets → Option Bytes
map_option f none = none
map_option f (some p) = some (f p)

find_param-value :
    (base name : Bytes) (ps : List KvOffsets)
    → find_value name (views base ps) ≡ map_option (λ p. value_of base p) (find_param base name ps)
unfolding find_value find_param
find_param-value base name [] = refl
find_param-value base name (p ∷ ps) = elim (Bool-cases (str_eq (name_of base p) name)) [
  | inl e ↦ rw (find_value, find_param, e) refl
  | inr e ↦ rw (find_value, find_param, e) (find_param-value base name ps)
]

search-views :
    (name : Bytes) (inf : QueryInfo)
    → (has_search_param name inf ≡ is_some (find_value name (views inf.qurl inf.qpairs)))
      × (search_param name inf ≡ value_or_empty (find_value name (views inf.qurl inf.qpairs)))
unfolding has_search_param search_param
search-views name inf = elim (Option-cases (find_param inf.qurl name inf.qpairs)) [
  | inl e ↦
      rw (find_param-value inf.qurl name inf.qpairs, has_search_param, search_param, e) (refl, refl)
  | inr (p, e) ↦
      rw (find_param-value inf.qurl name inf.qpairs, has_search_param, search_param, e) (refl, refl)
]

-- For a query of fewer than 2^32 bytes: search_param gives the value of the first parameter with a
-- name, and nothing if there is none; has_search_param is true exactly if there is one. The
-- parameters are the pieces between `&` that are not empty, cut at the first `=`; in both
-- parts a `+` is a blank, and a `%` before two hexadecimal digits is the byte that they stand for.
pub search_param-params :
    (s name : Bytes)
    → length s < 2 ^ 32
    → (search_param name (make_params s) ≡ value_or_empty (find_value name (params s)))
      × (has_search_param name (make_params s) ≡ is_some (find_value name (params s)))
search_param-params s name b =
    let search = search-views name (make_params s) in
    let same = make_params-params s b in
    (
      search.1 ∙ ap (λ ps. value_or_empty (find_value name ps)) same,
      search.0 ∙ ap (λ ps. is_some (find_value name ps)) same,
    )
