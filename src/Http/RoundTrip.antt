-- ===== src/Http/RoundTrip.antt =====
-- Headers that a message is given and headers that a parser reads, cotamer/http.cc.
use cs2620_s26_psets.Base.{◌+◌, ◌^◌, ◌≤◌, ◌<◌, ◌≡◌, refl, List, [], ◌∷◌, map, arith, length, All}
use cs2620_s26_psets.Bytes.{Bytes}
use cs2620_s26_psets.Http.Chars.{trim_front, trim_back, trim_hws}
use cs2620_s26_psets.Http.Message.{new_message, do_clear}
use cs2620_s26_psets.Http.Callbacks.{MessageData, on_message_begin}
use cs2620_s26_psets.Http.Lines.{header_list}
use cs2620_s26_psets.Http.Headers.{add_headers, add_headers-Indexed, trim_value, text_length}
use cs2620_s26_psets.Http.Parsed.{on_headers-header_list, parsed_pair, pieces_length}
use cs2620_s26_psets.Http.Pieces.{concat, on_headers}

-- A name and a value, put together from their pieces.
abbrev pub whole : List Bytes × List Bytes → Bytes × Bytes
whole h = (concat h.0, concat h.1)

-- llhttp drops the blanks before a value.
abbrev pub NoBlankFirst : List Bytes × List Bytes → Type 0
NoBlankFirst h = trim_front (concat h.1) ≡ concat h.1

pairs-same :
    (hs : List (List Bytes × List Bytes))
    → All NoBlankFirst hs
    → map parsed_pair hs ≡ map trim_value (map whole hs)
unfolding trim_hws
pairs-same [] h = refl
pairs-same (p ∷ hs) h = rw (h.0, pairs-same hs h.1) refl

length-trim_back : (s : Bytes) → length (trim_back s) ≤ length s
unfolding trim_back
length-trim_back [] = omega arith
length-trim_back (ch ∷ s) = ground (arith, length-trim_back s)

text_length-pieces :
    (hs : List (List Bytes × List Bytes))
    → All NoBlankFirst hs
    → text_length (map whole hs) ≤ pieces_length hs
unfolding text_length pieces_length trim_hws
text_length-pieces [] h = omega arith
text_length-pieces (p ∷ hs) h =
    rw h.0 (omega (arith, length-trim_back (concat p.1), text_length-pieces hs h.1))

-- From any message that it begins, however llhttp cuts the names and the values into pieces, a
-- parser has the headers that add_header gives a new message, if no value begins with a blank and
-- the buffer stays shorter than 2^32 bytes.
pub on_headers-add_headers :
    (hs : List (List Bytes × List Bytes)) (md : MessageData)
    → All NoBlankFirst hs
    → length md.hm.headers + pieces_length hs < 2 ^ 32
    → header_list (on_headers hs (on_message_begin md)).hm
      ≡ header_list (add_headers (map whole hs) new_message)
unfolding on_message_begin do_clear
on_headers-add_headers hs md h b =
    let parsed =
      on_headers-header_list hs (on_message_begin md) refl
        (record { fit = tt; small_buffer = omega arith }) b in
    let added =
      add_headers-Indexed (map whole hs) new_message
        (record { fit = tt; small_buffer = omega arith })
        (omega (arith, text_length-pieces hs h)) in
    rw (parsed.0, added.0) (pairs-same hs h)
