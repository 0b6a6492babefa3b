-- ===== src/Http/UrlSplit.antt =====
-- path, search, hash and the parameters of a URL, cotamer/http.cc and cotamer/http.hh.
use cs2620_s26_psets.Base.{
  ℕ, suc, ◌+◌, ◌^◌, ◌<◌, ◌≡◌, refl, sym, ap, ◌∙◌, inl, inr, Bool, true, false, ◌&&◌, [], ◌∷◌, ◌++◌,
  arith, ◌==◌, if◌then◌else◌, Bool-cases, length, length-append, drop, List-cases, ==_iff,
  append_assoc, append_nil,
}
use cs2620_s26_psets.Bytes.{Bytes}
use cs2620_s26_psets.Http.Message.{view_of}
use cs2620_s26_psets.Http.Views.{views}
use cs2620_s26_psets.Http.Tracks.{view_at}
use cs2620_s26_psets.Http.Params.{params}
use cs2620_s26_psets.Http.SearchParams.{make_params-params}
use cs2620_s26_psets.Http.Url.{
  new_url, failed, url_loop, begins_with_slash, make_url, url_field, path, search, hash,
  has_valid_url, url_params, field_params,
}
use cs2620_s26_psets.Http.UrlParts.{
  all_url_bytes, before_hash, from_hash, before_question, from_question, before-from_hash,
  before-from_question,
}
use cs2620_s26_psets.Http.UrlFields.{Fields, end-0}
use cs2620_s26_psets.Http.UrlEnds.{finish-0, loop-fails}

-- A URL starts with a slash, and has only bytes that are allowed.
abbrev pub is_valid_url : Bytes → Bool
is_valid_url url = begins_with_slash url && all_url_bytes url

abbrev pub path_part : Bytes → Bytes
path_part url = before_question (before_hash url)

abbrev pub search_part : Bytes → Bytes
search_part url = from_question (before_hash url)

length-parts :
    (url : Bytes)
    → (length (before_hash url) ≡ length (path_part url) + length (search_part url))
      × (length url ≡ length (before_hash url) + length (from_hash url))
length-parts url = (
  ap (λ s. length s) (sym (before-from_question (before_hash url)))
      ∙ length-append (path_part url) (search_part url),
  ap (λ s. length s) (sym (before-from_hash url)) ∙ length-append (before_hash url) (from_hash url),
)

make_url-valid :
    (url : Bytes)
    → is_valid_url url ≡ true
    → length url < 2 ^ 32
    → Fields (make_url url) (length (path_part url)) (length (before_hash url)) (length url)
unfolding make_url
make_url-valid url h b = elim (Bool-cases (begins_with_slash url)) [
  | inl e ↦
      rw (make_url, e)
        (finish-0 url new_url (length (path_part url)) (length (before_hash url)) (length url)
          (rw e at h) refl (omega arith) (omega arith) (omega arith) b)
  | inr e ↦ absurd (cc (rw e at h))
]

make_url-invalid : (url : Bytes) → is_valid_url url ≡ false → Fields (make_url url) 0 0 0
unfolding make_url
make_url-invalid url h = elim (Bool-cases (begins_with_slash url)) [
  | inl e ↦
      let f = loop-fails url new_url (rw e at h) in
      rw (make_url, e) (end-0 (url_loop url new_url) 0 f.0 (rw f.1 refl))
  | inr e ↦ rw (make_url, e) (end-0 (failed new_url) 0 refl refl)
]

-- A field that covers a part of the URL.
field-part :
    (url pre mid post : Bytes) (first last : ℕ)
    → url ≡ pre ++ (mid ++ post)
    → first ≡ length pre
    → last ≡ length pre + length mid
    → length url < 2 ^ 32
    → url_field url (first, last) ≡ mid
unfolding url_field
field-part url pre mid post first last e f g b = elim (Bool-cases (first == last)) [
  | inl q ↦ elim (List-cases mid) [
    | inl n ↦ rw (url_field, q, n) refl
    | inr (x, rest, n) ↦ absurd (omega (arith, (==_iff first last).0 q, ap (λ s. length s) n))
  ]
  | inr q ↦
      rw (url_field, q)
        (view_at url pre mid post first last e f g (
          omega
            (arith, ap (λ s. length s) e, length-append pre (mid ++ post), length-append mid post)))
]

differs : (a b : ℕ) → a < b → (a == b) ≡ false
differs a b l = ground (arith, l)

params_none : params [] ≡ []
unfolding params
params_none = refl

-- The parameters of a field that covers a part of the URL.
field_params-part :
    (url pre mid post : Bytes) (first last : ℕ)
    → url ≡ pre ++ (mid ++ post)
    → first ≡ length pre
    → last ≡ length pre + length mid
    → length url < 2 ^ 32
    → let inf = field_params url (first, last) in views inf.qurl inf.qpairs ≡ params (drop 1 mid)
unfolding field_params
field_params-part url pre mid post first last e f g b = elim (List-cases mid) [
  | inl n ↦
      let same : (first == last) ≡ true =
        (==_iff first last).1 (omega (arith, ap (λ s. length s) n)) in
      rw (field_params, same, n) (sym params_none)
  | inr (x, rest, n) ↦
      let size : length url ≡ length pre + (length mid + length post) =
        rw (e, length-append pre (mid ++ post), length-append mid post) refl in
      let more : length mid ≡ suc (length rest) = ap (λ s. length s) n in
      let start : length (pre ++ (x ∷ [])) ≡ length pre + 1 = length-append pre (x ∷ []) in
      let differ : (first == last) ≡ false = differs first last (omega (arith, more)) in
      let inside : view_of url (first + 1) last ≡ rest =
        view_at url (pre ++ (x ∷ [])) rest post (first + 1) last
          (e ∙ rw (n, append_assoc pre (x ∷ []) (rest ++ post)) refl) (omega (arith, start))
          (omega (arith, start, more)) (omega (arith, start, more, size)) in
      rw (field_params, differ, inside, n) (make_params-params rest (omega (arith, more, size)))
]

url-parts : (url : Bytes) → url ≡ path_part url ++ (search_part url ++ from_hash url)
url-parts url =
    sym (before-from_hash url)
    ∙ ap (λ s. s ++ from_hash url) (sym (before-from_question (before_hash url)))
    ∙ append_assoc (path_part url) (search_part url) (from_hash url)

-- The fields of a valid URL.
valid_parts :
    (url : Bytes)
    → is_valid_url url ≡ true
    → length url < 2 ^ 32
    → (path url ≡ path_part url)
      × (search url ≡ search_part url)
      × (hash url ≡ from_hash url)
      × (views (url_params url).qurl (url_params url).qpairs ≡ params (drop 1 (search_part url)))
unfolding path search hash url_params
valid_parts url h b =
    let f = make_url-valid url h b in
    let l = length-parts url in
    (
      rw f.0 (
          field-part url [] (path_part url) (search_part url ++ from_hash url) 0
            (length (path_part url)) (url-parts url) refl (omega arith) b),
      rw f.1 (
          field-part url (path_part url) (search_part url) (from_hash url) (length (path_part url))
            (length (before_hash url)) (url-parts url) refl l.0 b),
      rw f.2 (
          field-part url (before_hash url) (from_hash url) [] (length (before_hash url))
            (length url) (rw (append_nil (from_hash url)) (sym (before-from_hash url))) refl l.1 b),
      rw f.1 (
          field_params-part url (path_part url) (search_part url) (from_hash url)
            (length (path_part url)) (length (before_hash url)) (url-parts url) refl l.0 b),
    )

invalid_parts :
    (url : Bytes)
    → is_valid_url url ≡ false
    → (path url ≡ [])
      × (search url ≡ [])
      × (hash url ≡ [])
      × (views (url_params url).qurl (url_params url).qpairs ≡ [])
unfolding path search hash url_params url_field field_params
invalid_parts url h =
    let f = make_url-invalid url h in (rw f.0 refl, rw f.1 refl, rw f.2 refl, rw f.1 refl)

path_not_empty : (url : Bytes) → is_valid_url url ≡ true → (0 == length (path_part url)) ≡ false
unfolding before_hash before_question
path_not_empty [] h = cc
path_not_empty (ch ∷ s) h = elim (Bool-cases (ch == b'/')) [
  | inl e ↦
      rw ((==_iff ch b'/').0 e)
        (differs 0 (suc (length (before_question (before_hash s)))) (omega arith))
  | inr e ↦ absurd (cc (rw e at h))
]

has_valid_url_lem : (url : Bytes) → length url < 2 ^ 32 → has_valid_url url ≡ is_valid_url url
unfolding has_valid_url
has_valid_url_lem url b = elim (Bool-cases (is_valid_url url)) [
  | inl e ↦ rw (e, (make_url-valid url e b).0) (rw (path_not_empty url e) refl)
  | inr e ↦ rw (e, (make_url-invalid url e).0) refl
]

-- For a URL of fewer than 2^32 bytes that starts with a slash and has only bytes that are allowed:
-- hash() is the text from the first `#` on, search() the text before it from the first `?` on, and
-- path() the text before both; the parameters are those of search() without its `?`. Any other URL
-- has none of these. has_valid_url() tells the two cases apart.
pub url_parts :
    (url : Bytes)
    → length url < 2 ^ 32
    → let v = is_valid_url url in
      (has_valid_url url ≡ v)
      × (path url ≡ (if v then path_part url else []))
      × (search url ≡ (if v then search_part url else []))
      × (hash url ≡ (if v then from_hash url else []))
      × (views (url_params url).qurl (url_params url).qpairs
          ≡ (if v then params (drop 1 (search_part url)) else []))
url_parts url b = elim (Bool-cases (is_valid_url url)) [
  | inl e ↦
      let p = valid_parts url e b in rw (has_valid_url_lem url b, e) (refl, p.0, p.1, p.2, p.3)
  | inr e ↦
      let p = invalid_parts url e in rw (has_valid_url_lem url b, e) (refl, p.0, p.1, p.2, p.3)
]
