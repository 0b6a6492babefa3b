-- ===== src/Http/Tests.antt =====
-- Runs of cotamer/http.cc, and the theorems about it at concrete inputs.
use cs2620_s26_psets.Base.{ℕ, ◌≡◌, refl, List, [], ◌∷◌, map, arith, if◌then◌else◌, drop}
use cs2620_s26_psets.Bytes.{Bytes, codes}
use cs2620_s26_psets.Lockseq.Keys.{format_digits}
use cs2620_s26_psets.Http.Chars.{trim_hws}
use cs2620_s26_psets.Http.Status.{default_status_message, default_status_codes}
use cs2620_s26_psets.Http.Lookup.{find_message, default_status_message_lem}
use cs2620_s26_psets.Http.Message.{
  HttpMessage, new_message, copy_message, do_clear, add_header, header, has_header, header_from,
  has_from,
}
use cs2620_s26_psets.Http.Views.{views}
use cs2620_s26_psets.Http.Headers.{
  add_headers, add_headers-header, strip_value, join_values, values_for, has_values, text_length,
}
use cs2620_s26_psets.Http.Lines.{header_list}
use cs2620_s26_psets.Http.Callbacks.{MessageData, state_unknown, on_message_begin}
use cs2620_s26_psets.Http.Parsed.{pieces_length}
use cs2620_s26_psets.Http.Pieces.{on_headers, concat}
use cs2620_s26_psets.Http.RoundTrip.{whole, on_headers-add_headers}
use cs2620_s26_psets.Http.Send.{send_request, send_response, send_response_chunk}
use cs2620_s26_psets.Http.Query.{make_params, search_param, has_search_param}
use cs2620_s26_psets.Http.Params.{params}
use cs2620_s26_psets.Http.SearchParams.{find_value, is_some, value_or_empty, search_param-params}
use cs2620_s26_psets.Http.Url.{path, search, hash, has_valid_url, url_params, is_safe}
use cs2620_s26_psets.Http.UrlParts.{from_hash}
use cs2620_s26_psets.Http.UrlSplit.{is_valid_url, path_part, search_part, url_parts}
use cs2620_s26_psets.Http.Chars.{trim_front}

abbrev unknown_status : ℕ → Bytes
unknown_status code = codes "?"

teapot : default_status_message unknown_status 418 ≡ codes "I'm a teapot"
unfolding default_status_message
teapot = refl

default_status_message_lem_example :
    default_status_message unknown_status 404 ≡ find_message unknown_status default_status_codes 404
default_status_message_lem_example = default_status_message_lem unknown_status 404

abbrev two_headers : List (Bytes × Bytes)
two_headers = (codes "Accept", codes " text/html ") ∷ (codes "accept", codes "*/*") ∷ []

joined_accept :
    header (codes "ACCEPT") (add_headers two_headers new_message) ≡ codes "text/html, */*"
unfolding add_headers add_header header_from
joined_accept = refl

add_headers-header_example :
    let m = add_headers two_headers new_message in
    (header (codes "ACCEPT") m
      ≡ join_values (values_for (codes "ACCEPT") (map strip_value two_headers)))
    × (has_header (codes "ACCEPT") m
        ≡ has_values (values_for (codes "ACCEPT") (map strip_value two_headers)))
unfolding text_length trim_hws
add_headers-header_example = add_headers-header two_headers (codes "ACCEPT") (omega arith)

abbrev two_pieces : List (List Bytes × List Bytes)
two_pieces =
    (codes "Ho" ∷ codes "st" ∷ [], codes "a.b " ∷ codes " " ∷ []) ∷ (codes "X" ∷ [], []) ∷ []

abbrev new_data : MessageData
new_data = record { hm = new_message; state = state_unknown; name1 = 0; name2 = 0; value1 = 0 }

on_headers-add_headers_example :
    header_list (on_headers two_pieces (on_message_begin new_data)).hm
    ≡ header_list (add_headers (map whole two_pieces) new_message)
unfolding concat trim_front pieces_length
on_headers-add_headers_example =
    on_headers-add_headers two_pieces new_data (refl, (refl, tt)) (omega arith)

abbrev query : Bytes
query = codes "x=1&y=%41+b&&=z&q"

query-params :
    params query
    ≡ (codes "x", codes "1") ∷ (codes "y", codes "A b") ∷ ([], codes "z") ∷ (codes "q", []) ∷ []
unfolding params
query-params = refl

search_param-params_example :
    (search_param (codes "y") (make_params query)
      ≡ value_or_empty (find_value (codes "y") (params query)))
    × (has_search_param (codes "y") (make_params query)
        ≡ is_some (find_value (codes "y") (params query)))
search_param-params_example = search_param-params query (codes "y") (omega arith)

abbrev url : Bytes
url = codes "/a/b?x=1#top?"

url_parts_example :
    let v = is_valid_url url in
    (has_valid_url url ≡ v)
    × (path url ≡ (if v then path_part url else []))
    × (search url ≡ (if v then search_part url else []))
    × (hash url ≡ (if v then from_hash url else []))
    × (views (url_params url).qurl (url_params url).qpairs
        ≡ (if v then params (drop 1 (search_part url)) else []))
url_parts_example = url_parts url (omega arith)

url_search : search url ≡ codes "?x=1"
unfolding search is_safe
url_search = refl

abbrev get_name : ℕ → Bytes
get_name method = codes "GET"

abbrev with_host : HttpMessage
with_host = add_header (codes "Host") (codes "a") (record new_message { url = codes "/" })

-- A copy of a message loses its headers for header() and has_header(), but still sends them: a
-- parser that knows a host adds it once more.
copy_sends_two_hosts :
    (send_request get_name (codes "a") with_host ≡ codes "GET / HTTP/1.1\r\nHost: a\r\n\r\n")
    × (send_request get_name (codes "a") (copy_message with_host)
        ≡ codes "GET / HTTP/1.1\r\nHost: a\r\nHost: a\r\n\r\n")
unfolding send_request add_header has_from copy_message format_digits
copy_sends_two_hosts = (refl, refl)

-- A message that is cleared still sends its old headers.
clear_sends_old :
    send_response unknown_status (do_clear with_host) ≡ codes "HTTP/1.1 200 OK\r\nHost: a\r\n\r\n"
unfolding send_response add_header has_from do_clear format_digits default_status_message
clear_sends_old = refl

-- The length of a chunk is written in decimal; chunked coding reads it as hexadecimal.
decimal_chunk : send_response_chunk (codes "0123456789") ≡ codes "10\r\n0123456789\r\n"
unfolding send_response_chunk format_digits
decimal_chunk = refl
