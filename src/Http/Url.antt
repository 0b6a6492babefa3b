-- ===== src/Http/Url.antt =====
-- The parts of a URL: the first half of http_message::make_info in cotamer/http.cc, url_field and
-- has_url_field of cotamer/http.hh, and the text that the second half reads.
use cs2620_s26_psets.Base.{
  ℕ, zero, suc, ◌+◌, ◌-◌, ◌%◌, ◌^◌, Bool, false, not, Option, none, some, [], ◌∷◌, ◌==◌,
  if◌then◌else◌,
}
use cs2620_s26_psets.Bytes.{Bytes}
use cs2620_s26_psets.Http.Chars.{chartable}
use cs2620_s26_psets.Http.Message.{view_of}
use cs2620_s26_psets.Http.Query.{QueryInfo, new_query, make_params}

-- `inf.f`, with positions that are `unsigned`, `fpos` and `s - s1`.
pub record UrlInfo : Type 0 where
  pub f0 : ℕ × ℕ
  pub f1 : ℕ × ℕ
  pub f2 : ℕ × ℕ
  pub fpos : ℕ
  pub pos : ℕ

-- One round of the loops that set the fields from `fpos` on.
abbrev pub set_field : UrlInfo → UrlInfo
set_field u =
    let at = u.pos % 2 ^ 32 in
    if u.fpos == 0
    then record u { f0 = (0, at); fpos = 1 }
    else if u.fpos == 1
    then record u { f1 = (u.f0.1, at); fpos = 2 }
    else record u { f2 = (u.f1.1, at); fpos = 3 }

-- `while (fpos < limit)`, with `limit - fpos` as its count.
unfoldable pub set_fields : ℕ → UrlInfo → UrlInfo
set_fields zero u = u
set_fields (suc k) u = set_fields k (set_field u)

abbrev pub next_byte : UrlInfo → UrlInfo
next_byte u = record u { pos = u.pos + 1 }

unfoldable pub is_safe : ℕ → Bool
unfolding chartable
is_safe ch = (chartable ch).us_safe

-- One round of the loop, or `goto fail`.
unfoldable pub url_step : ℕ → UrlInfo → Option UrlInfo
unfolding set_fields
url_step ch u =
    if is_safe ch
    then some (next_byte u)
    else if ch == b'?'
    then some (next_byte (if u.fpos == 0 then set_field u else u))
    else if ch == b'#'
    then some (next_byte (set_fields (2 - u.fpos) u))
    else none

abbrev pub new_url : UrlInfo
new_url = record { f0 = (0, 0); f1 = (0, 0); f2 = (0, 0); fpos = 0; pos = 0 }

-- After `fail`.
abbrev pub failed : UrlInfo → UrlInfo
failed u = record u { fpos = 0; pos = 0 }

unfoldable pub url_loop : Bytes → UrlInfo → UrlInfo
unfolding url_step
url_loop [] u = u
url_loop (ch ∷ s) u = elim (url_step ch u) [ none ↦ failed u | some u' ↦ url_loop s u' ]

abbrev pub begins_with_slash : Bytes → Bool
begins_with_slash [] = false
begins_with_slash (ch ∷ s) = ch == b'/'

unfoldable pub make_url : Bytes → UrlInfo
unfolding url_loop set_fields
make_url url =
    let u = if begins_with_slash url then url_loop url new_url else failed new_url in
    set_fields (3 - u.fpos) u

abbrev pub has_url_field : ℕ × ℕ → Bool
has_url_field f = not (f.0 == f.1)

unfoldable pub url_field : Bytes → ℕ × ℕ → Bytes
url_field url f = if has_url_field f then view_of url f.0 f.1 else []

unfoldable pub path : Bytes → Bytes
unfolding make_url url_field
path url = url_field url (make_url url).f0

unfoldable pub search : Bytes → Bytes
unfolding make_url url_field
search url = url_field url (make_url url).f1

unfoldable pub hash : Bytes → Bytes
unfolding make_url url_field
hash url = url_field url (make_url url).f2

unfoldable pub has_valid_url : Bytes → Bool
unfolding make_url
has_valid_url url = has_url_field (make_url url).f0

unfoldable pub field_params : Bytes → ℕ × ℕ → QueryInfo
unfolding make_params
field_params url f = if has_url_field f then make_params (view_of url (f.0 + 1) f.1) else new_query

-- The parameters, `info(info_params)`.
unfoldable pub url_params : Bytes → QueryInfo
unfolding make_url field_params
url_params url = field_params url (make_url url).f1
