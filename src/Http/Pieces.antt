-- ===== src/Http/Pieces.antt =====
-- A header that comes in pieces, cotamer/http.cc.
use cs2620_s26_psets.Base.{
  ℕ, ◌+◌, ◌%◌, ◌^◌, ◌<◌, ◌≡◌, refl, List, [], ◌∷◌, ◌++◌, arith, length, append_nil, append_assoc,
  length-append,
}
use cs2620_s26_psets.Bytes.{Bytes, codes}
use cs2620_s26_psets.Http.Message.{HttpMessage}
use cs2620_s26_psets.Http.Callbacks.{
  MessageData, state_unknown, state_header_name, state_header_value, append_text, on_header_field,
  on_header_field_complete, on_header_value, on_header_value_complete,
}
use cs2620_s26_psets.Http.Lines.{small}

unfoldable pub concat : List Bytes → Bytes
concat [] = []
concat (s ∷ pieces) = s ++ concat pieces

-- The pieces of a name.
unfoldable pub on_fields : List Bytes → MessageData → MessageData
unfolding on_header_field
on_fields [] md = md
on_fields (s ∷ pieces) md = on_fields pieces (on_header_field s md)

-- The pieces of a value.
unfoldable pub on_values : List Bytes → MessageData → MessageData
unfolding on_header_value
on_values [] md = md
on_values (s ∷ pieces) md = on_values pieces (on_header_value s md)

-- What llhttp calls for one header.
unfoldable pub on_header : List Bytes × List Bytes → MessageData → MessageData
unfolding on_fields on_values on_header_field_complete on_header_value_complete
on_header (names, values) md =
    on_header_value_complete (on_values values (on_header_field_complete (on_fields names md)))

unfoldable pub on_headers : List (List Bytes × List Bytes) → MessageData → MessageData
unfolding on_header
on_headers [] md = md
on_headers (h ∷ hs) md = on_headers hs (on_header h md)

pub append_text_twice :
    (s t : Bytes) (m : HttpMessage) → append_text t (append_text s m) ≡ append_text (s ++ t) m
append_text_twice s t m = rw (append_assoc m.headers s t) refl

pub append_text_none : (m : HttpMessage) → append_text [] m ≡ m
append_text_none m = rw (append_nil m.headers) refl

pub on_values_lem :
    (pieces : List Bytes) (md : MessageData)
    → on_values pieces md ≡ record md { hm = append_text (concat pieces) md.hm }
unfolding on_values on_header_value concat
on_values_lem [] md = rw (append_text_none md.hm) refl
on_values_lem (s ∷ pieces) md =
    rw
      (
        on_values_lem pieces (record md { hm = append_text s md.hm }),
        append_text_twice s (concat pieces) md.hm,
      )
      refl

pub on_header_field-named :
    (s : Bytes) (md : MessageData)
    → md.state ≡ state_header_name
    → on_header_field s md ≡ record md { hm = append_text s md.hm }
unfolding on_header_field
on_header_field-named s md e = rw (on_header_field, e) refl

pub on_fields-named :
    (pieces : List Bytes) (md : MessageData)
    → md.state ≡ state_header_name
    → on_fields pieces md ≡ record md { hm = append_text (concat pieces) md.hm }
unfolding on_fields concat
on_fields-named [] md e = rw (append_text_none md.hm) refl
on_fields-named (s ∷ pieces) md e =
    rw
      (
        on_header_field-named s md e,
        on_fields-named pieces (record md { hm = append_text s md.hm }) e,
        append_text_twice s (concat pieces) md.hm,
      )
      refl

-- A message with the start of a line, and its positions.
abbrev pub started : Bytes → MessageData → MessageData
started key md = record {
  hm = append_text (key ++ codes ": ") md.hm;
  state = state_header_value;
  name1 = length md.hm.headers;
  name2 = length md.hm.headers + length key;
  value1 = length md.hm.headers + length key + 2;
}

pub complete-named :
    (key : Bytes) (md : MessageData) (first : ℕ)
    → first ≡ length md.hm.headers
    → length md.hm.headers + length key + 2 < 2 ^ 32
    → on_header_field_complete
        (record md { hm = append_text key md.hm; name1 = first; state = state_header_name })
      ≡ started key md
unfolding on_header_field_complete
complete-named key md first e b =
    rw
      (
        e,
        length-append md.hm.headers key,
        small (length md.hm.headers + length key) (omega arith),
        small (length md.hm.headers + length key + 2) b,
        append_assoc md.hm.headers key (codes ": "),
      )
      refl

pub no_more : (n : ℕ) → n + 0 ≡ n
no_more n = omega arith

pub complete-unknown :
    (md : MessageData)
    → md.state ≡ state_unknown
    → length md.hm.headers + 0 + 2 < 2 ^ 32
    → on_header_field_complete md ≡ started [] md
unfolding on_header_field_complete
complete-unknown md e b =
    rw
      (
        on_header_field_complete,
        e,
        small (length md.hm.headers) (omega arith),
        small (length md.hm.headers + 2) (omega arith),
      )
      (rw (no_more (length md.hm.headers)) refl)

pub on_header_field-unknown :
    (s : Bytes) (md : MessageData)
    → md.state ≡ state_unknown
    → on_header_field s md ≡ record md {
      hm = append_text s md.hm;
      name1 = length md.hm.headers % 2 ^ 32;
      state = state_header_name;
    }
unfolding on_header_field
on_header_field-unknown s md e = rw (on_header_field, e) refl

pub fields-started :
    (pieces : List Bytes) (md : MessageData)
    → md.state ≡ state_unknown
    → length md.hm.headers + length (concat pieces) + 2 < 2 ^ 32
    → on_header_field_complete (on_fields pieces md) ≡ started (concat pieces) md
unfolding on_fields concat
fields-started [] md e b = complete-unknown md e b
fields-started (s ∷ pieces) md e b =
    rw
      (
        on_header_field-unknown s md e,
        on_fields-named pieces
            (record md {
              hm = append_text s md.hm;
              name1 = length md.hm.headers % 2 ^ 32;
              state = state_header_name;
            })
            refl,
        append_text_twice s (concat pieces) md.hm,
      )
      (complete-named (s ++ concat pieces) md (length md.hm.headers % 2 ^ 32)
        (small (length md.hm.headers) (omega arith)) b)
