-- ===== src/Http/Message.antt =====
-- http_kvoffsets and http_message of cotamer/http.hh and cotamer/http.cc. `info_`, which caches
-- what Http/Url and Http/Query compute, is left out.
use cs2620_s26_psets.Base.{
  ℕ, ◌+◌, ◌-◌, ◌%◌, ◌^◌, Bool, true, false, ◌||◌, Option, none, some, List, [], ◌∷◌, ◌++◌,
  if◌then◌else◌, length, take, drop,
}
use cs2620_s26_psets.Bytes.{Bytes, codes}
use cs2620_s26_psets.Http.Chars.{ieq, trim_hws}
use cs2620_s26_psets.Lockseq.Keys.{format_digits}

-- Positions in a buffer; the fields are `unsigned`.
pub record KvOffsets : Type 0 where
  pub name1 : ℕ
  pub name2 : ℕ
  pub value1 : ℕ
  pub value2 : ℕ

-- `emplace_back` of positions that are `size_t`.
abbrev pub offsets : ℕ → ℕ → ℕ → ℕ → KvOffsets
offsets a b c d = record {
  name1 = a % 2 ^ 32;
  name2 = b % 2 ^ 32;
  value1 = c % 2 ^ 32;
  value2 = d % 2 ^ 32;
}

-- The `string_view` from `first` on, as long as `last - first` says in `unsigned`.
abbrev pub view_of : Bytes → ℕ → ℕ → Bytes
view_of base first last = take ((last + 2 ^ 32 - first) % 2 ^ 32) (drop first base)

abbrev pub name_of : Bytes → KvOffsets → Bytes
name_of base p = view_of base p.name1 p.name2

abbrev pub value_of : Bytes → KvOffsets → Bytes
value_of base p = view_of base p.value1 p.value2

pub record HttpMessage : Type 0 where
  pub major : ℕ
  pub minor : ℕ
  pub method : ℕ
  pub error : ℕ
  pub status_code : ℕ
  pub upgrade : Bool
  pub has_body : Bool
  pub url : Bytes
  pub status_message : Bytes
  pub headers : Bytes
  pub hpairs : List KvOffsets
  pub body : Bytes

-- HTTP_GET and HPE_OK of llhttp.
abbrev pub http_get : ℕ
http_get = 1

abbrev pub hpe_ok : ℕ
hpe_ok = 0

abbrev pub new_message : HttpMessage
new_message = record {
  major = 1;
  minor = 1;
  method = http_get;
  error = hpe_ok;
  status_code = 200;
  upgrade = false;
  has_body = false;
  url = [];
  status_message = [];
  headers = [];
  hpairs = [];
  body = [];
}

-- The copy constructor.
unfoldable pub copy_message : HttpMessage → HttpMessage
copy_message x = record x { hpairs = [] }

unfoldable pub do_clear : HttpMessage → HttpMessage
do_clear m = record new_message { headers = m.headers }

unfoldable pub set_status : ℕ → Bytes → HttpMessage → HttpMessage
set_status code message m = record m { status_code = code % 2 ^ 16; status_message = message }

unfoldable pub set_body : Bytes → HttpMessage → HttpMessage
set_body body m = record m { body = body; has_body = true }

unfoldable pub append_body : Bytes → HttpMessage → HttpMessage
append_body str m = record m { body = m.body ++ str; has_body = true }

unfoldable pub add_header : Bytes → Bytes → HttpMessage → HttpMessage
unfolding trim_hws
add_header key value m =
    let name1 = length m.headers in
    let name2 = name1 + length key in
    let text = m.headers ++ (key ++ (codes ": " ++ trim_hws value)) in
    record m {
      headers = text ++ codes "\r\n";
      hpairs = m.hpairs ++ (offsets name1 name2 (name2 + 2) (length text) ∷ []);
    }

-- `std::to_string` of a `size_t`: twenty digits are enough.
abbrev pub add_header_size : Bytes → ℕ → HttpMessage → HttpMessage
add_header_size key value m = add_header key (format_digits 20 value) m

-- The loops over the headers.
unfoldable pub has_from : Bytes → Bytes → List KvOffsets → Bool
unfolding ieq
has_from base name [] = false
has_from base name (p ∷ ps) = ieq (name_of base p) name || has_from base name ps

abbrev pub has_header : Bytes → HttpMessage → Bool
has_header name m = has_from m.headers name m.hpairs

unfoldable pub find_from : Bytes → Bytes → List KvOffsets → Option KvOffsets
unfolding ieq
find_from base name [] = none
find_from base name (p ∷ ps) = if ieq (name_of base p) name then some p else find_from base name ps

abbrev pub find_header : Bytes → HttpMessage → Option KvOffsets
find_header name m = find_from m.headers name m.hpairs

unfoldable pub header_from : Bytes → Bytes → List KvOffsets → Bytes → Bool → Bytes
unfolding ieq
header_from base name [] result any = result
header_from base name (p ∷ ps) result any =
    let more = header_from base name ps (result ++ (codes ", " ++ value_of base p)) true in
    let first = header_from base name ps (value_of base p) true in
    let next = header_from base name ps result any in
    if ieq (name_of base p) name then if any then more else first else next

abbrev pub header : Bytes → HttpMessage → Bytes
header name m = header_from m.headers name m.hpairs [] false
