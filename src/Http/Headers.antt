-- ===== src/Http/Headers.antt =====
-- What header() and has_header() of cotamer/http.cc find after calls of add_header.
use cs2620_s26_psets.Base.{
  ℕ, ◌+◌, ◌^◌, ◌<◌, ◌≡◌, refl, sym, ap, ◌∙◌, inl, inr, Bool, true, false, List, [], ◌∷◌, ◌++◌, map,
  arith, if◌then◌else◌, Bool-cases, length, append_assoc, length-append, append_nil,
}
use cs2620_s26_psets.Bytes.{Bytes, codes}
use cs2620_s26_psets.Http.Chars.{ieq, trim_hws}
use cs2620_s26_psets.Http.Message.{
  KvOffsets, HttpMessage, add_header, has_from, has_header, header_from, header, new_message,
  name_of, value_of,
}
use cs2620_s26_psets.Http.Views.{views}
use cs2620_s26_psets.Http.Lines.{
  line, line_assoc, length-start, with_line, with_line-header_list, with_line-IsIndexed, IsIndexed,
  header_list,
}
use cs2620_s26_psets.Http.Strings.{ieq-same_name, same_name, trim_hws-strip, strip}

pub add_header-with_line :
    (key value : Bytes) (m : HttpMessage)
    → add_header key value m ≡ with_line key (trim_hws value) (codes "\r\n") m
unfolding add_header
add_header-with_line key value m =
    let t = trim_hws value in
    let text_lem : (m.headers ++ (key ++ (codes ": " ++ t))) ++ codes "\r\n"
        ≡ m.headers ++ line key t (codes "\r\n") =
      rw
        (
          append_assoc m.headers (key ++ (codes ": " ++ t)) (codes "\r\n"),
          append_assoc key (codes ": " ++ t) (codes "\r\n"),
        )
        refl in
    let length_lem : length (m.headers ++ (key ++ (codes ": " ++ t)))
        ≡ length m.headers + length key + 2 + length t =
      rw
        (
          line_assoc m.headers key t,
          length-append (m.headers ++ (key ++ codes ": ")) t,
          length-start m.headers key,
        )
        refl in
    rw (text_lem, length_lem) refl

-- Calls of add_header, in order.
unfoldable pub add_headers : List (Bytes × Bytes) → HttpMessage → HttpMessage
add_headers [] m = m
add_headers ((key, value) ∷ hs) m = add_headers hs (add_header key value m)

abbrev pub trim_value : Bytes × Bytes → Bytes × Bytes
trim_value h = (h.0, trim_hws h.1)

-- The bytes that these headers take.
unfoldable pub text_length : List (Bytes × Bytes) → ℕ
text_length [] = 0
text_length ((key, value) ∷ hs) = length key + length (trim_hws value) + 4 + text_length hs

add_header-headers_length :
    (key value : Bytes) (m : HttpMessage)
    → length (add_header key value m).headers
      ≡ length m.headers + (length key + length (trim_hws value) + 4)
add_header-headers_length key value m =
    rw
      (
        add_header-with_line key value m,
        line_assoc m.headers key (trim_hws value ++ codes "\r\n"),
        length-append (m.headers ++ (key ++ codes ": ")) (trim_hws value ++ codes "\r\n"),
        length-start m.headers key,
        length-append (trim_hws value) (codes "\r\n"),
      )
      (omega arith)

pub add_headers-Indexed :
    (hs : List (Bytes × Bytes)) (m : HttpMessage)
    → IsIndexed m
    → length m.headers + text_length hs < 2 ^ 32
    → (header_list (add_headers hs m) ≡ header_list m ++ map trim_value hs)
      × IsIndexed (add_headers hs m)
unfolding add_headers text_length
add_headers-Indexed [] m h b = (sym (append_nil (header_list m)), h)
add_headers-Indexed ((key, value) ∷ hs) m h b =
    let m' = add_header key value m in
    let h' : IsIndexed m' =
      rw (add_header-with_line key value m)
        (with_line-IsIndexed key (trim_hws value) (codes "\r\n") m h (omega arith)) in
    let list : header_list m' ≡ header_list m ++ ((key, trim_hws value) ∷ []) =
      rw (add_header-with_line key value m)
        (with_line-header_list key (trim_hws value) (codes "\r\n") m h (omega arith)) in
    let later =
      add_headers-Indexed hs m' h' (omega (arith, add_header-headers_length key value m)) in
    (
      rw
          (
            later.0,
            list,
            append_assoc (header_list m) ((key, trim_hws value) ∷ []) (map trim_value hs),
          )
          refl,
      later.1,
    )

-- The values for a name that ieq finds, in order.
unfoldable ieq_values : Bytes → List (Bytes × Bytes) → List Bytes
unfolding ieq
ieq_values name [] = []
ieq_values name ((key, value) ∷ hs) =
    let rest = ieq_values name hs in if ieq key name then value ∷ rest else rest

unfoldable pub join_more : List Bytes → Bytes
join_more [] = []
join_more (v ∷ vs) = (codes ", " ++ v) ++ join_more vs

-- The values with ", " between them.
unfoldable pub join_values : List Bytes → Bytes
unfolding join_more
join_values [] = []
join_values (v ∷ vs) = v ++ join_more vs

header_from-more :
    (base name : Bytes) (ps : List KvOffsets) (result : Bytes)
    → header_from base name ps result true ≡ result ++ join_more (ieq_values name (views base ps))
unfolding header_from ieq_values join_more
header_from-more base name [] result = sym (append_nil result)
header_from-more base name (p ∷ ps) result = elim (Bool-cases (ieq (name_of base p) name)) [
  | inl e ↦
      rw (header_from, e, header_from-more base name ps (result ++ (codes ", " ++ value_of base p)))
        (append_assoc result (codes ", " ++ value_of base p)
          (join_more (ieq_values name (views base ps))))
  | inr e ↦ rw (header_from, e) (header_from-more base name ps result)
]

header_from-join :
    (base name : Bytes) (ps : List KvOffsets)
    → header_from base name ps [] false ≡ join_values (ieq_values name (views base ps))
unfolding header_from ieq_values join_values
header_from-join base name [] = refl
header_from-join base name (p ∷ ps) = elim (Bool-cases (ieq (name_of base p) name)) [
  | inl e ↦ rw (header_from, e) (header_from-more base name ps (value_of base p))
  | inr e ↦ rw (header_from, e) (header_from-join base name ps)
]

unfoldable pub has_values : List Bytes → Bool
has_values [] = false
has_values (v ∷ vs) = true

has_from-values :
    (base name : Bytes) (ps : List KvOffsets)
    → has_from base name ps ≡ has_values (ieq_values name (views base ps))
unfolding has_from ieq_values has_values
has_from-values base name [] = refl
has_from-values base name (p ∷ ps) = elim (Bool-cases (ieq (name_of base p) name)) [
  | inl e ↦ rw (has_from, e) refl
  | inr e ↦ rw (has_from, e) (has_from-values base name ps)
]

-- The values for a name, case ignored, in order.
unfoldable pub values_for : Bytes → List (Bytes × Bytes) → List Bytes
values_for name [] = []
values_for name ((key, value) ∷ hs) =
    let rest = values_for name hs in if same_name key name then value ∷ rest else rest

-- A header without the blanks at the ends of its value.
abbrev pub strip_value : Bytes × Bytes → Bytes × Bytes
strip_value h = (h.0, strip h.1)

ieq_values-values_for :
    (name : Bytes) (hs : List (Bytes × Bytes)) → ieq_values name hs ≡ values_for name hs
unfolding ieq_values values_for
ieq_values-values_for name [] = refl
ieq_values-values_for name ((key, value) ∷ hs) =
    ap (λ b. if b then value ∷ ieq_values name hs else ieq_values name hs) (ieq-same_name key name)
    ∙ ap (λ vs. if same_name key name then value ∷ vs else vs) (ieq_values-values_for name hs)

trim_values : (hs : List (Bytes × Bytes)) → map trim_value hs ≡ map strip_value hs
trim_values [] = refl
trim_values ((key, value) ∷ hs) =
    ap (λ t. (key, t) ∷ map trim_value hs) (trim_hws-strip value)
    ∙ ap (λ rest. (key, strip value) ∷ rest) (trim_values hs)

-- After headers of fewer than 2^32 bytes have been added to a new message: header() gives the
-- values of all of them with that name, upper and lower case letters being the same, spaces and tabs
-- at their ends removed, in order and joined by ", "; has_header() is true exactly if there is one.
pub add_headers-header :
    (hs : List (Bytes × Bytes)) (name : Bytes)
    → text_length hs < 2 ^ 32
    → let m = add_headers hs new_message in
      (header name m ≡ join_values (values_for name (map strip_value hs)))
      × (has_header name m ≡ has_values (values_for name (map strip_value hs)))
add_headers-header hs name b =
    let m = add_headers hs new_message in
    let list =
      (add_headers-Indexed hs new_message (record { fit = tt; small_buffer = omega arith })
        (omega arith)).0 in
    let same : ieq_values name (header_list m) ≡ values_for name (map strip_value hs) =
      ap (ieq_values name) list
      ∙ ieq_values-values_for name (map trim_value hs)
      ∙ ap (values_for name) (trim_values hs) in
    (
      header_from-join m.headers name m.hpairs ∙ ap join_values same,
      has_from-values m.headers name m.hpairs ∙ ap has_values same,
    )
