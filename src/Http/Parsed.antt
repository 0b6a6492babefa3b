-- ===== src/Http/Parsed.antt =====
-- The headers that the callbacks of cotamer/http.cc build from pieces of names and values.
use mathlib.Core.Path.{subst}
use cs2620_s26_psets.Base.{
  ℕ, ◌+◌, ◌^◌, ◌<◌, ◌≡◌, refl, sym, ap, ◌∙◌, List, [], ◌∷◌, ◌++◌, map, arith, length, append_nil,
  append_assoc, length-append,
}
use cs2620_s26_psets.Bytes.{Bytes, codes}
use cs2620_s26_psets.Http.Chars.{trim_back}
use cs2620_s26_psets.Http.Callbacks.{
  MessageData, state_unknown, append_text, on_header_value_complete, trim_end,
}
use cs2620_s26_psets.Http.Trim.{blank_end, trim_back-blank_end, trim_end-trim_back}
use cs2620_s26_psets.Http.Lines.{
  line, line_assoc, length-start, with_line, IsIndexed, header_list, with_line-IsIndexed,
  length-line, with_line-header_list,
}
use cs2620_s26_psets.Http.Pieces.{
  started, concat, on_headers, on_header, fields-started, on_values_lem,
}

-- The end of a line.
values_complete :
    (key value : Bytes) (md : MessageData)
    → length md.hm.headers + length key + 2 + length value < 2 ^ 32
    → on_header_value_complete
        (record (started key md) { hm = append_text value (started key md).hm })
      ≡ record (started key md) {
        hm = with_line key (trim_back value) (blank_end value ++ codes "\r\n") md.hm;
        state = state_unknown;
      }
unfolding on_header_value_complete
values_complete key value md b =
    let base = md.hm.headers ++ (key ++ codes ": ") in
    let stop : trim_end (base ++ value) (length md.hm.headers + length key + 2)
          (length (base ++ value))
        ≡ length md.hm.headers + length key + 2 + length (trim_back value) =
      rw (length-start md.hm.headers key) at
        (trim_end-trim_back base value (length (base ++ value)) (length-append base value)) in
    let text : (base ++ value) ++ codes "\r\n"
        ≡ md.hm.headers ++ line key (trim_back value) (blank_end value ++ codes "\r\n") =
      rw
        (
          append_assoc base value (codes "\r\n"),
          line_assoc md.hm.headers key (trim_back value ++ (blank_end value ++ codes "\r\n")),
        )
        (ap (λ t. base ++ t)
          (ap (λ t. t ++ codes "\r\n") (sym (trim_back-blank_end value))
            ∙ append_assoc (trim_back value) (blank_end value) (codes "\r\n"))) in
    rw (stop, text) refl

abbrev pub parsed_pair : List Bytes × List Bytes → Bytes × Bytes
parsed_pair h = (concat h.0, trim_back (concat h.1))

on_header_lem :
    (h : List Bytes × List Bytes) (md : MessageData)
    → md.state ≡ state_unknown
    → length md.hm.headers + length (concat h.0) + 2 + length (concat h.1) < 2 ^ 32
    → on_header h md ≡ record (started (concat h.0) md) {
      hm =
          with_line
            (concat h.0)
            (trim_back (concat h.1))
            (blank_end (concat h.1) ++ codes "\r\n")
            md.hm;
      state = state_unknown;
    }
unfolding on_header
on_header_lem (names, values) md e b =
    rw (fields-started names md e (omega arith), on_values_lem values (started (concat names) md))
      (values_complete (concat names) (concat values) md b)

value_room :
    (s : Bytes) → length (trim_back s) + length (blank_end s ++ codes "\r\n") ≡ length s + 2
value_room s = rw (length-append (blank_end s) (codes "\r\n")) (
    omega (
      arith,
      length-append (trim_back s) (blank_end s),
      ap (λ t. length t) (trim_back-blank_end s),
    ))

-- The bytes that these headers take.
unfoldable pub pieces_length : List (List Bytes × List Bytes) → ℕ
unfolding concat
pieces_length [] = 0
pieces_length ((names, values) ∷ hs) =
    length (concat names) + length (concat values) + 4 + pieces_length hs

pub on_headers-header_list :
    (hs : List (List Bytes × List Bytes)) (md : MessageData)
    → md.state ≡ state_unknown
    → IsIndexed md.hm
    → length md.hm.headers + pieces_length hs < 2 ^ 32
    → (header_list (on_headers hs md).hm ≡ header_list md.hm ++ map parsed_pair hs)
      × IsIndexed (on_headers hs md).hm
unfolding on_headers pieces_length
on_headers-header_list [] md e i b = (sym (append_nil (header_list md.hm)), i)
on_headers-header_list ((names, values) ∷ hs) md e i b =
    let key = concat names in
    let value = trim_back (concat values) in
    let post = blank_end (concat values) ++ codes "\r\n" in
    let room : length value + length post ≡ length (concat values) + 2 =
      value_room (concat values) in
    let md' = record (started key md) {
      hm = with_line key value post md.hm;
      state = state_unknown;
    } in
    let later =
      on_headers-header_list hs md' refl
        (with_line-IsIndexed key value post md.hm i (omega (arith, room)))
        (omega (arith, room, length-line md.hm.headers key value post)) in
    let list = with_line-header_list key value post md.hm i (omega (arith, room)) in
    subst
      (λ x.
        (header_list (on_headers hs x).hm
          ≡ header_list md.hm ++ map parsed_pair ((names, values) ∷ hs))
        × IsIndexed (on_headers hs x).hm)
      (sym (on_header_lem (names, values) md e (omega arith)))
      (
        rw
            (
              later.0,
              list,
              append_assoc (header_list md.hm) ((key, value) ∷ []) (map parsed_pair hs),
            )
            refl,
        later.1,
      )
