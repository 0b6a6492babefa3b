-- ===== src/Http/Send.antt =====
-- What http_parser::send_request, send_response and send_response_chunk of cotamer/http.cc write.
use cs2620_s26_psets.Base.{ℕ, not, ◌||◌, ◌++◌, if◌then◌else◌, length}
use cs2620_s26_psets.Bytes.{Bytes, codes, is_empty}
use cs2620_s26_psets.Http.Message.{HttpMessage, has_header, add_header_size, add_header}
use cs2620_s26_psets.Lockseq.Keys.{format_digits}
use cs2620_s26_psets.Http.Status.{default_status_message}

-- `{}` of an unsigned number.
abbrev pub number : ℕ → Bytes
number n = format_digits 20 n

abbrev pub add_host : Bytes → HttpMessage → HttpMessage
add_host host m =
    if is_empty host || has_header (codes "host") m then m else add_header (codes "Host") host m

abbrev pub add_length : HttpMessage → HttpMessage
add_length m =
    if not m.has_body
      || (has_header (codes "content-length") m || has_header (codes "transfer-encoding") m)
    then m
    else add_header_size (codes "Content-Length") (length m.body) m

abbrev version : HttpMessage → Bytes
version m = codes "HTTP/" ++ (number m.major ++ (codes "." ++ number m.minor))

-- `method_name` is `llhttp_method_name`, `host` the host of the parser.
unfoldable pub send_request : (ℕ → Bytes) → Bytes → HttpMessage → Bytes
send_request method_name host m =
    let urlline =
      method_name m.method
      ++ (codes " " ++ (m.url ++ (codes " " ++ (version m ++ codes "\r\n")))) in
    let m' = add_length (add_host host m) in urlline ++ ((m'.headers ++ codes "\r\n") ++ m'.body)

unfoldable pub send_response : (ℕ → Bytes) → HttpMessage → Bytes
send_response other m =
    let status_message =
      if is_empty m.status_message
      then default_status_message other m.status_code
      else m.status_message in
    let codeline =
      version m
      ++ (codes " " ++ (number m.status_code ++ (codes " " ++ (status_message ++ codes "\r\n")))) in
    let m' = add_length m in codeline ++ ((m'.headers ++ codes "\r\n") ++ m'.body)

unfoldable pub send_response_chunk : Bytes → Bytes
send_response_chunk str = (number (length str) ++ codes "\r\n") ++ (str ++ codes "\r\n")
