-- ===== src/Http/Query.antt =====
-- The parameters of a URL: the second half of http_message::make_info in cotamer/http.cc, and
-- has_search_param and search_param.
use cs2620_s26_psets.Base.{
  ℕ, zero, suc, ◌+◌, ◌*◌, ◌%◌, ◌^◌, Bool, true, false, not, ◌&&◌, Option, none, some, List, [], ◌∷◌,
  ◌++◌, ◌==◌, if◌then◌else◌, length,
}
use cs2620_s26_psets.Bytes.{Bytes, str_eq}
use cs2620_s26_psets.Http.Chars.{chartable, xvalue}
use cs2620_s26_psets.Http.Message.{KvOffsets, name_of, value_of}

-- `state`: 0, 1 and 2.
pub data QueryState : Type 0 where
  at_start in_name in_value : QueryState

-- The variables of the loop. `pending` is the text from `last` up to `s`. The positions are
-- `unsigned`.
pub record QueryInfo : Type 0 where
  pub qurl : Bytes
  pub pending : Bytes
  pub qpairs : List KvOffsets
  pub state : QueryState
  pub nstart : ℕ
  pub nend : ℕ
  pub vstart : ℕ
  pub vend : ℕ

abbrev pub is_start : QueryState → Bool
is_start at_start = true
is_start in_name = false
is_start in_value = false

abbrev pub is_in_value : QueryState → Bool
is_in_value at_start = false
is_in_value in_name = false
is_in_value in_value = true

unfoldable pub is_hex : ℕ → Bool
unfolding chartable
is_hex ch = (chartable ch).us_hex

-- The byte of an escape, from what follows its `%`. If one byte is left, the next one that the code
-- reads is `#` or the zero at the end, which is no digit.
unfoldable pub escape : Bytes → Option ℕ
unfolding is_hex chartable
escape [] = none
escape (a ∷ []) = none
escape (a ∷ b ∷ s) = if is_hex a && is_hex b then some (xvalue a * 16 + xvalue b) else none

-- `inf.qurl.length() + s - last`.
abbrev pub position : QueryInfo → ℕ
position q = (length q.qurl + length q.pending) % 2 ^ 32

abbrev pub add_pending : ℕ → QueryInfo → QueryInfo
add_pending ch q = record q { pending = q.pending ++ (ch ∷ []) }

abbrev pub add_decoded : ℕ → QueryInfo → QueryInfo
add_decoded ch q = record q { qurl = q.qurl ++ (q.pending ++ (ch ∷ [])); pending = [] }

-- A pair that ends at `stop`.
abbrev pub add_pair : ℕ → QueryInfo → QueryInfo
add_pair stop q = elim q.state [
  | at_start ↦ q
  | in_name ↦ record q {
    vend = stop;
    nend = stop;
    vstart = stop;
    qpairs =
        q.qpairs ++ (record { name1 = q.nstart; name2 = stop; value1 = stop; value2 = stop } ∷ []);
    state = at_start;
  }
  | in_value ↦ record q {
    vend = stop;
    qpairs =
        q.qpairs
        ++ (record { name1 = q.nstart; name2 = q.nend; value1 = q.vstart; value2 = stop } ∷ []);
    state = at_start;
  }
]

unfoldable pub take_ampersand : QueryInfo → QueryInfo
take_ampersand q =
    let q1 = add_pending b'&' (add_pair (position q) q) in
    record q1 { nstart = position q1; nend = position q1 }

unfoldable pub take_equals : QueryInfo → QueryInfo
take_equals q = record (add_pending b'=' q) {
  nend = position q;
  vstart = (position q + 1) % 2 ^ 32;
  state = in_value;
}

abbrev pub leave_start : QueryInfo → QueryInfo
leave_start q = record q { state = if is_start q.state then in_name else q.state }

-- A byte of a name or a value, with what follows it: the number of further bytes that it takes.
unfoldable pub take_other : ℕ → Bytes → QueryInfo → ℕ × QueryInfo
unfolding escape
take_other ch s q =
    let q1 = leave_start q in
    let plain = if ch == b'+' then add_decoded b' ' q1 else add_pending ch q1 in
    elim (if ch == b'%' then escape s else none) [
      | none ↦ (0, plain)
      | some v ↦ (2, add_decoded v q1)
    ]

-- One round of the loop.
unfoldable pub query_step : ℕ → Bytes → QueryInfo → ℕ × QueryInfo
unfolding take_other take_ampersand take_equals
query_step ch s q =
    let other = take_other ch s q in
    if ch == b'&'
    then (0, take_ampersand q)
    else if ch == b'=' && not (is_in_value q.state)
    then (0, take_equals q)
    else other

-- The loop; the first argument counts the bytes of an escape that are still to be passed.
unfoldable pub query_loop : ℕ → Bytes → QueryInfo → QueryInfo
unfolding query_step
query_loop k [] q = q
query_loop (suc k) (ch ∷ s) q = query_loop k s q
query_loop zero (ch ∷ s) q = let r = query_step ch s q in query_loop r.0 s r.1

abbrev pub new_query : QueryInfo
new_query = record {
  qurl = [];
  pending = [];
  qpairs = [];
  state = at_start;
  nstart = 0;
  nend = 0;
  vstart = 0;
  vend = 0;
}

-- `s1` to `s2` is the text after the question mark.
unfoldable pub make_params : Bytes → QueryInfo
unfolding query_loop
make_params s =
    let q = query_loop 0 s new_query in
    let q1 = record q { qurl = q.qurl ++ q.pending; pending = [] } in add_pair (position q1) q1

unfoldable pub find_param : Bytes → Bytes → List KvOffsets → Option KvOffsets
find_param base name [] = none
find_param base name (p ∷ ps) =
    let rest = find_param base name ps in if str_eq (name_of base p) name then some p else rest

unfoldable pub has_search_param : Bytes → QueryInfo → Bool
unfolding find_param
has_search_param name inf = elim (find_param inf.qurl name inf.qpairs) [
  | none ↦ false
  | some p ↦ true
]

unfoldable pub search_param : Bytes → QueryInfo → Bytes
unfolding find_param
search_param name inf = elim (find_param inf.qurl name inf.qpairs) [
  | none ↦ []
  | some p ↦ value_of inf.qurl p
]
